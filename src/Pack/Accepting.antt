-- ===== src/Pack/Accepting.antt =====
-- What `from_bytes` has found in bytes that it accepts.
use dmi.Base.{
  Bool, List, false, true, leb, length, str_eq, ℕ, ◌%◌, ◌&&◌, drop, take, ◌+◌, ◌-◌, ◌==◌, ◌^◌, ◌≡◌,
  refl, sym, ap, subst, ◌∙◌, arith,
}
use dmi.Pack.Bytes.{unpack, read_range}
use dmi.Pack.Writer.{Codec, IndexedRecord, header_size, trailer_size}
use dmi.Pack.Reader.{
  Read, ReadError, ok, err, bad_format, bad_integrity, ◌>>=◌, ◌>>◌, require, Header, header_of,
  header_widths, Trailer, trailer_of, trailer_widths, Footer, Decoder, PackReader, bytes_eq,
  check_header, check_trailer, decode_footer, parse_records, from_bytes,
}

pub bind_ok :
    {A B : Type 0} (m : Read A) (f : A → Read B) (b : B)
    → (m >>= f) ≡ ok b
    → (a : A) × (m ≡ ok a) × (f a ≡ ok b)
bind_ok (ok a) f b h = (a, refl, h)
bind_ok (err e) f b h = cc

pub require_ok :
    {B : Type 0} (t : Bool) (e : ReadError) (k : Read B) (b : B)
    → (require t e >> k) ≡ ok b
    → (t ≡ true) × (k ≡ ok b)
require_ok true e k b h = (refl, h)
require_ok false e k b h = cc

abbrev value : {A : Type 0} → Read A → A → A
value (ok a) x = a
value (err e) x = x

pub both_left : (a b : Bool) → (a && b) ≡ true → a ≡ true
both_left a b h = ground arith

pub both_right : (a b : Bool) → (a && b) ≡ true → b ≡ true
both_right a b h = ground arith

-- What `from_bytes` found where it accepted the bytes.
pub record Accepted (c : Codec) (d : Decoder) (bytes : List ℕ) (p : PackReader) : Type 0 where
  pub header : Header
  pub trailer : Trailer
  pub decoded : Footer
  pub long : leb (header_size + trailer_size + 2) (length bytes) ≡ true
  pub header_ok : check_header header ≡ ok tt
  pub trailer_is :
      trailer_of (unpack trailer_widths (drop (length bytes - trailer_size) bytes)) ≡ ok trailer
  pub trailer_ok : check_trailer header trailer (length bytes - trailer_size) ≡ ok tt
  pub crc :
      (c.crc32 (
            read_range bytes trailer.footer_offset
              (length bytes - trailer_size - trailer.footer_offset))
          % 2 ^ 32
        == trailer.footer_crc)
      ≡ true
  pub footer_is :
      decode_footer d
        (read_range bytes trailer.footer_offset
          (length bytes - trailer_size - trailer.footer_offset))
        header.major
        header.minor
      ≡ ok decoded
  pub pack_id : str_eq decoded.pack_id p.pack_id ≡ true
  pub records_are : parse_records decoded.records trailer.footer_offset ≡ ok p.records

same_identity :
    (f : Footer) (h : Header) (made p : PackReader)
    → (str_eq f.pack_id made.pack_id && f.created_at_ns == h.created_at_ns) ≡ true
    → ◌≡◌ {A = Read PackReader} (ok made) (ok p)
    → str_eq f.pack_id p.pack_id ≡ true
same_identity f h made p same e =
    subst (λ (q : PackReader). str_eq f.pack_id q.pack_id ≡ true) (ap (λ r. value r p) e)
      (both_left (str_eq f.pack_id made.pack_id) (f.created_at_ns == h.created_at_ns) same)

same_records :
    (parsed : Read (List IndexedRecord)) (xs : List IndexedRecord) (made p : PackReader)
    → parsed ≡ ok xs
    → made.records ≡ xs
    → ◌≡◌ {A = Read PackReader} (ok made) (ok p)
    → parsed ≡ ok p.records
same_records parsed xs made p is_xs same e =
    is_xs
    ∙ ap (λ l. ok l) (sym same)
    ∙ ap (λ (q : PackReader). ok q.records) (ap (λ r. value r p) e)

pub from_bytes-Accepted :
    (c : Codec) (d : Decoder) (bytes : List ℕ) (p : PackReader)
    → from_bytes c d bytes ≡ ok p
    → Accepted c d bytes p
unfolding from_bytes
from_bytes-Accepted c d bytes p e =
    let (long, e1) =
      require_ok (leb (header_size + trailer_size + 2) (length bytes)) bad_format _ p e in
    let (h, h_is, e2) = bind_ok (header_of (unpack header_widths bytes)) _ p e1 in
    let (u, h_ok, e3) = bind_ok (check_header h) _ p e2 in
    let (t, t_is, e4) =
      bind_ok (trailer_of (unpack trailer_widths (drop (length bytes - trailer_size) bytes))) _ p
        e3 in
    let (v, t_ok, e5) = bind_ok (check_trailer h t (length bytes - trailer_size)) _ p e4 in
    let (hash_ok, e6) =
      require_ok (bytes_eq (c.sha256 (take (length bytes - trailer_size) bytes)) t.body_hash)
        bad_integrity _ p e5 in
    let footer = read_range bytes t.footer_offset (length bytes - trailer_size - t.footer_offset) in
    let (crc, e7) = require_ok (c.crc32 footer % 2 ^ 32 == t.footer_crc) bad_integrity _ p e6 in
    let (f, f_is, e8) = bind_ok (decode_footer d footer h.major h.minor) _ p e7 in
    let (same, e9) =
      require_ok (str_eq f.pack_id (d.uuid_text h.pack_bytes) && f.created_at_ns == h.created_at_ns)
        bad_format _ p e8 in
    let (xs, xs_are, e10) = bind_ok (parse_records f.records t.footer_offset) _ p e9 in
    record {
      header = h;
      trailer = t;
      decoded = f;
      long = long;
      header_ok = h_ok;
      trailer_is = t_is;
      trailer_ok = t_ok;
      crc = crc;
      footer_is = f_is;
      pack_id = same_identity f h _ p same e10;
      records_are = same_records _ xs _ p xs_are refl e10;
    }
