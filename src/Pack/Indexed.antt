-- ===== src/Pack/Indexed.antt =====
-- An index that was read by ranges, and a reader of the whole pack.
use dmi.Base.{
  Bool, List, Option, String, [], false, true, leb, length, none, some, str_eq, ℕ, ◌%◌, ◌&&◌, drop,
  take, ◌+◌, ◌-◌, ◌==◌, ◌^◌, ◌≡◌, ◌≤◌, refl, sym, ap, ap₂, subst, eq_iff, append-nil, if◌then◌else◌,
  ◌∙◌, arith, leb→le, length-drop,
}
use dmi.Model.{PackRef}
use dmi.Pack.Bytes.{unpack, read_range, take-all}
use dmi.Pack.Writer.{Codec, header_size, trailer_size, max_footer_bytes, trailer_magic}
use dmi.Pack.Reader.{
  Read, ReadError, ok, bad_format, ◌>>=◌, ◌>>◌, require, Header, Trailer, trailer_of,
  trailer_widths, Decoder, PackReader, bytes_eq, check_header, check_trailer, decode_footer,
  from_bytes,
}
use dmi.Pack.Index.{
  PackStore, PackIndex, max_footer_read_bytes, check_index_trailer, check_identity, index_trailer,
  index_footer, read_index, from_store,
}
use dmi.Pack.Accepting.{require_ok, both_left, both_right, from_bytes-Accepted}

passes :
    {B : Type 0} (t : Bool) (e : ReadError) (k : Read B) {r : Read B}
    → t ≡ true
    → k ≡ r
    → (require t e >> k) ≡ r
passes true e k h same = same
passes false e k h same = cc

binds :
    {A B : Type 0} (m : Read A) (f : A → Read B) (a : A) {r : Read B}
    → m ≡ ok a
    → f a ≡ r
    → (m >>= f) ≡ r
binds m f a h same = rw h same

required : (t : Bool) (e : ReadError) → require t e ≡ ok tt → t ≡ true
required true e h = refl
required false e h = cc

equal : (a b : ℕ) → a == b ≡ true → a ≡ b
equal a b h = ground arith

-- What the two checks of a trailer have in common.
record Checked (h : Header) (t : Trailer) (trailer_offset : ℕ) : Type 0 where
  index_ok : check_index_trailer t trailer_offset ≡ ok tt
  major : t.major ≡ h.major
  minor : t.minor ≡ h.minor
  range : trailer_offset - t.footer_offset ≡ t.footer_length
  ends : t.footer_offset + t.footer_length ≡ trailer_offset
  bounded : t.footer_length ≤ max_footer_bytes

rest_of : (a b n : ℕ) → a + b ≡ n → n - a ≡ b
rest_of a b n e = omega (arith, e)

known :
    (t : Trailer) (h : Header)
    → t.major ≡ h.major
    → t.minor ≡ h.minor
    → h.major == 1 ≡ true
    → leb h.minor 0 ≡ true
    → (t.major == 1 && leb t.minor 0) ≡ true
known t h a b major minor = ground arith

trailer_checks :
    (h : Header) (t : Trailer) (trailer_offset : ℕ)
    → check_header h ≡ ok tt
    → check_trailer h t trailer_offset ≡ ok tt
    → Checked h t trailer_offset
unfolding check_header check_trailer check_index_trailer
trailer_checks h t trailer_offset e e' =
    let (a, e1) = require_ok _ bad_format _ tt e in
    let (major, e2) = require_ok (h.major == 1) bad_format _ tt e1 in
    let (minor, e3) = require_ok (leb h.minor 0) bad_format _ tt e2 in
    let (magic, e1') = require_ok (bytes_eq t.magic trailer_magic) bad_format _ tt e' in
    let (same, e2') = require_ok (t.major == h.major && t.minor == h.minor) bad_format _ tt e1' in
    let (small, e3') = require_ok (leb t.footer_length max_footer_bytes) bad_format _ tt e2' in
    let range =
      required
        (leb header_size t.footer_offset && t.footer_offset + t.footer_length == trailer_offset)
        bad_format e3' in
    let same_major = equal _ _ (both_left (t.major == h.major) (t.minor == h.minor) same) in
    let same_minor = equal _ _ (both_right (t.major == h.major) (t.minor == h.minor) same) in
    let ends = equal _ _ (
      both_right (leb header_size t.footer_offset)
        (t.footer_offset + t.footer_length == trailer_offset) range) in
    record {
      index_ok =
          passes _ _ _ magic
            (passes _ _ _ (known t h same_major same_minor major minor) (passes _ _ _ small e3'));
      major = same_major;
      minor = same_minor;
      range = rest_of t.footer_offset t.footer_length trailer_offset ends;
      ends = ends;
      bounded = leb→le _ _ small;
    }

numbers_equal : (a b : ℕ) → a ≡ b → a == b ≡ true
numbers_equal a b h = ground arith

texts_equal : (a b : String) → a ≡ b → str_eq a b ≡ true
texts_equal a b h = ground (arith, eq_iff a b)

in_store :
    {A : Type 0} (t : Bool) (k : Read A) (r : Read A)
    → t ≡ true
    → k ≡ r
    → ◌≡◌ {A = Option (Read A)} (if t then some k else none) (some r)
in_store true k r h same = ap some same
in_store false k r h same = cc

drop_size :
    (bytes : List ℕ)
    → header_size + trailer_size + 2 ≤ length bytes
    → length (drop (length bytes - trailer_size) bytes) == trailer_size ≡ true
drop_size bytes h =
    numbers_equal _ _ (omega (arith, length-drop (length bytes - trailer_size) bytes))

reads_trailer :
    (store : PackStore) (ref : PackRef) (bytes : List ℕ)
    → ((offset size : ℕ)
        → offset + size ≤ length bytes
        → store.read_range ref offset size ≡ read_range bytes offset size)
    → ref.object_bytes ≡ length bytes
    → header_size + trailer_size + 2 ≤ length bytes
    → store.read_range ref (ref.object_bytes - trailer_size) trailer_size
      ≡ drop (length bytes - trailer_size) bytes
reads_trailer store ref bytes reads size long =
    let rest = drop (length bytes - trailer_size) bytes in
    ap (λ n. store.read_range ref (n - trailer_size) trailer_size) size
    ∙ reads (length bytes - trailer_size) trailer_size (omega (arith, long))
    ∙ ap (λ n. take n rest) (sym (equal _ _ (drop_size bytes long)))
    ∙ ap (λ l. take (length rest) l) (sym (append-nil rest))
    ∙ take-all rest []

identity_ok :
    (normal : String → Option String) (found pack_id wanted : String)
    → str_eq found pack_id ≡ true
    → normal pack_id ≡ some pack_id
    → wanted ≡ pack_id
    → check_identity (normal found) wanted ≡ ok tt
identity_ok normal found pack_id wanted same text same_id =
    let e : found ≡ pack_id = ground (arith, eq_iff found pack_id) in
    rw (e, text, same_id, texts_equal pack_id pack_id refl) refl

-- Bytes that `from_bytes` accepts, in a store that reads ranges of them, under a reference that says
-- what they are: `from_store` raises nothing and its index has the records of the reader, and it has
-- read at most `max_footer_read_bytes` and at most the pack, if `str(UUID(…))` leaves the identity of
-- the pack as it is.
pub from_store_agrees :
    (c : Codec) (d : Decoder) (normal : String → Option String) (store : PackStore) (ref : PackRef)
    (bytes : List ℕ) (p : PackReader)
    → ((offset size : ℕ)
        → offset + size ≤ length bytes
        → store.read_range ref offset size ≡ read_range bytes offset size)
    → ref.store_id ≡ store.store_id
    → ref.object_bytes ≡ length bytes
    → ref.pack_id ≡ p.pack_id
    → ref.record_count ≡ length p.records
    → normal p.pack_id ≡ some p.pack_id
    → from_bytes c d bytes ≡ ok p
    → (x : PackIndex) × (from_store c d normal store ref ≡ some (ok x))
      × (x.records ≡ p.records)
      × (x.footer_read_bytes ≤ max_footer_read_bytes ref)
      × (x.footer_read_bytes ≤ length bytes)
unfolding from_store read_index index_trailer index_footer max_footer_read_bytes
from_store_agrees c d normal store ref bytes p reads same_store size same_id count same_text e =
    let a = from_bytes-Accepted c d bytes p e in
    let k =
      trailer_checks a.header a.trailer (length bytes - trailer_size) a.header_ok a.trailer_ok in
    let trailer_bytes = reads_trailer store ref bytes reads size (leb→le _ _ a.long) in
    let footer_bytes : store.read_range ref a.trailer.footer_offset a.trailer.footer_length
        ≡ read_range bytes a.trailer.footer_offset
            (length bytes - trailer_size - a.trailer.footer_offset) =
      reads a.trailer.footer_offset a.trailer.footer_length (omega (arith, k.ends))
      ∙ ap (λ n. read_range bytes a.trailer.footer_offset n) (sym k.range) in
    let x : PackIndex = record {
      ref = ref;
      records = p.records;
      footer_read_bytes = trailer_size + a.trailer.footer_length;
    } in
    (
      x,
      in_store _ _ _ (texts_equal ref.store_id store.store_id same_store) (
          passes _ _ _
            (subst (λ n. leb (header_size + trailer_size + 2) n ≡ true) (sym size) a.long)
            (binds _ _ a.trailer
              (passes _ _ _
                (subst (λ (l : List ℕ). length l == trailer_size ≡ true) (sym trailer_bytes)
                  (drop_size bytes (leb→le _ _ a.long)))
                (binds _ _ a.trailer
                  (ap (λ l. trailer_of (unpack trailer_widths l)) trailer_bytes ∙ a.trailer_is)
                  (binds _ _ tt
                    (subst (λ n. check_index_trailer a.trailer (n - trailer_size) ≡ ok tt)
                      (sym size) k.index_ok)
                    refl)))
              (passes _ _ _
                (subst (λ (l : List ℕ). c.crc32 l % 2 ^ 32 == a.trailer.footer_crc ≡ true)
                  (sym footer_bytes) a.crc)
                (binds _ _ a.decoded
                  (ap (λ l. decode_footer d l a.trailer.major a.trailer.minor) footer_bytes
                    ∙ ap₂
                        (λ m n.
                          decode_footer d
                            (read_range bytes a.trailer.footer_offset
                              (length bytes - trailer_size - a.trailer.footer_offset))
                            m n)
                        k.major k.minor
                    ∙ a.footer_is)
                  (binds _ _ tt
                    (identity_ok normal a.decoded.pack_id p.pack_id ref.pack_id a.pack_id same_text
                      same_id)
                    (binds _ _ p.records a.records_are
                      (passes _ _ _ (numbers_equal _ _ (sym count)) refl))))))),
      refl,
      omega (arith, k.bounded, k.ends, size, leb→le _ _ a.long),
      omega (arith, k.ends, leb→le _ _ a.long),
    )
