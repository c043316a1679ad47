-- ===== src/Pack/Reader.antt =====
-- `PackReader` of src/dmi/storage/capture/pack.py, and the checks that it shares with `PackIndex`.
-- `json.loads` and what makes a footer's fields of its answer are a field of `Decoder`; `none` is a
-- footer that is no JSON, or that lacks a field or holds one of another type.
use Prim.Native.Char.{code}
use dmi.Base.{
  Bool, List, Option, String, [], drop, false, if◌then◌else◌, leb, length, none, not, replicate,
  some, str_eq, suc, take, true, zero, ℕ, ◌%◌, ◌&&◌, ◌+◌, ◌-◌, ◌==◌, ◌^◌, ◌||◌, ◌∷◌,
}
use dmi.Model.{CaptureDescriptor, PayloadLocator, metadata_valid, metadata_eq, logical_bytes}
use dmi.Pack.Bytes.{unpack, le_value, read_range}
use dmi.Pack.Writer.{
  Codec, IndexedRecord, contains, header_size, trailer_size, max_footer_bytes, max_records_limit,
  header_magic, trailer_magic,
}

-- `PackFormatError`, `PackIntegrityError`.
pub data ReadError : Type 0 where
  bad_format bad_integrity : ReadError

pub data Read {ℓ} (A : Type ℓ) : Type ℓ where
  ok : A → Read A
  err : ReadError → Read A

infixl 5 ◌>>=◌ ◌>>◌
abbrev pub ◌>>=◌ {ℓ κ} : {A : Type ℓ} {B : Type κ} → Read A → (A → Read B) → Read B
ok a >>= f = f a
err e >>= f = err e

abbrev pub ◌>>◌ {ℓ} : {B : Type ℓ} → Read (Unit {0}) → Read B → Read B
m >> k = m >>= λ _. k

-- `if not test: raise e`
abbrev pub require : Bool → ReadError → Read (Unit {0})
require true e = ok tt
require false e = err e

pub record Footer : Type 0 where
  pub format : String
  pub major_version : ℕ
  pub minor_version : ℕ
  pub pack_id : String
  pub created_at_ns : ℕ
  pub records : List IndexedRecord

pub record Decoder : Type 0 where
  pub json : List ℕ → Option Footer
  -- `str(UUID(bytes=…))`
  pub uuid_text : List ℕ → String

abbrev pub bytes_eq : List ℕ → List ℕ → Bool
bytes_eq [] [] = true
bytes_eq [] (y ∷ ys) = false
bytes_eq (x ∷ xs) [] = false
bytes_eq (x ∷ xs) (y ∷ ys) = x == y && bytes_eq xs ys

-- `_CRC_PATTERN`: eight hexadecimal digits, in lower case.
abbrev is_hex : ℕ → Bool
is_hex ch = (leb b'0' ch && leb ch b'9') || (leb b'a' ch && leb ch b'f')

unfoldable pub is_hex_text : ℕ → String → Bool
is_hex_text zero String.[] = true
is_hex_text zero (String.◌∷◌ ch s) = false
is_hex_text (suc n) String.[] = false
is_hex_text (suc n) (String.◌∷◌ ch s) = is_hex (code ch) && is_hex_text n s

-- `_parse_record`
unfoldable pub parse_record : ℕ → IndexedRecord → Read IndexedRecord
parse_record footer_offset x = do
  require (leb header_size x.offset) bad_format
  require (leb (x.offset + x.stored_length) footer_offset) bad_format
  require (str_eq x.codec "none" && x.stored_length == x.decoded_length) bad_format
  require (is_hex_text 8 x.checksum) bad_format
  require (metadata_valid x.metadata) bad_format
  require (logical_bytes x.metadata == x.decoded_length) bad_format
  ok x

-- The loop of `_parse_records`.
unfoldable pub parse_from : ℕ → ℕ → List String → List IndexedRecord → Read (List IndexedRecord)
unfolding parse_record
parse_from footer_offset previous_end seen [] = ok []
parse_from footer_offset previous_end seen (x ∷ xs) = do
  record' ← parse_record footer_offset x
  require (not (contains seen record'.metadata.capture_id)) bad_format
  require (leb previous_end record'.offset) bad_format
  rest ←
      parse_from footer_offset (record'.offset + record'.stored_length)
        (record'.metadata.capture_id ∷ seen) xs
  ok (record' ∷ rest)

-- `_parse_records`
unfoldable pub parse_records : List IndexedRecord → ℕ → Read (List IndexedRecord)
unfolding parse_from
parse_records raw footer_offset = do
  require (leb (length raw) max_records_limit) bad_format
  parse_from footer_offset header_size [] raw

pub record PackReader : Type 0 where
  pub bytes : List ℕ
  pub pack_id : String
  pub created_at_ns : ℕ
  pub records : List IndexedRecord
  pub object_checksum : String

-- What `_HEADER.unpack_from` and `_TRAILER.unpack_from` return.
pub record Header : Type 0 where
  pub magic : List ℕ
  pub major : ℕ
  pub minor : ℕ
  pub size : ℕ
  pub pack_bytes : List ℕ
  pub created_at_ns : ℕ
  pub flags : ℕ
  pub reserved : List ℕ

pub record Trailer : Type 0 where
  pub magic : List ℕ
  pub major : ℕ
  pub minor : ℕ
  pub footer_offset : ℕ
  pub footer_length : ℕ
  pub footer_crc : ℕ
  pub body_hash : List ℕ

abbrev pub header_widths : List ℕ
header_widths = 8 ∷ 2 ∷ 2 ∷ 4 ∷ 16 ∷ 8 ∷ 4 ∷ 20 ∷ []

abbrev pub trailer_widths : List ℕ
trailer_widths = 8 ∷ 2 ∷ 2 ∷ 8 ∷ 8 ∷ 4 ∷ 32 ∷ []

-- Another number of fields cannot come from `unpack`.
abbrev pub header_of : List (List ℕ) → Read Header
header_of (a ∷ b ∷ c ∷ d ∷ e ∷ f ∷ g ∷ h ∷ []) = ok (record {
  magic = a;
  major = le_value b;
  minor = le_value c;
  size = le_value d;
  pack_bytes = e;
  created_at_ns = le_value f;
  flags = le_value g;
  reserved = h;
})
header_of _ = err bad_format

abbrev pub trailer_of : List (List ℕ) → Read Trailer
trailer_of (a ∷ b ∷ c ∷ d ∷ e ∷ f ∷ g ∷ []) = ok (record {
  magic = a;
  major = le_value b;
  minor = le_value c;
  footer_offset = le_value d;
  footer_length = le_value e;
  footer_crc = le_value f;
  body_hash = g;
})
trailer_of _ = err bad_format

unfoldable pub check_header : Header → Read (Unit {0})
check_header h = do
  require (bytes_eq h.magic header_magic) bad_format
  require (h.major == 1) bad_format
  require (leb h.minor 0) bad_format
  require (h.size == header_size && h.flags == 0 && bytes_eq h.reserved (replicate 20 0)) bad_format

unfoldable pub check_trailer : Header → Trailer → ℕ → Read (Unit {0})
check_trailer h t trailer_offset = do
  require (bytes_eq t.magic trailer_magic) bad_format
  require (t.major == h.major && t.minor == h.minor) bad_format
  require (leb t.footer_length max_footer_bytes) bad_format
  require (leb header_size t.footer_offset && t.footer_offset + t.footer_length == trailer_offset)
      bad_format

-- `_decode_footer`
unfoldable pub decode_footer : Decoder → List ℕ → ℕ → ℕ → Read Footer
decode_footer d footer major minor = elim (d.json footer) [
  | none ↦ err bad_format
  | some f ↦
      (require (str_eq f.format "dmi-pack") bad_format
        >> (require (f.major_version == major && f.minor_version == minor) bad_format >> ok f))
]

unfoldable pub from_bytes : Codec → Decoder → List ℕ → Read PackReader
from_bytes c d bytes = do
  require (leb (header_size + trailer_size + 2) (length bytes)) bad_format
  h ← header_of (unpack header_widths bytes)
  check_header h
  let trailer_offset = length bytes - trailer_size
  t ← trailer_of (unpack trailer_widths (drop trailer_offset bytes))
  check_trailer h t trailer_offset
  require (bytes_eq (c.sha256 (take trailer_offset bytes)) t.body_hash) bad_integrity
  let footer = read_range bytes t.footer_offset (trailer_offset - t.footer_offset)
  require (c.crc32 footer % 2 ^ 32 == t.footer_crc) bad_integrity
  decoded ← decode_footer d footer h.major h.minor
  let pack_id = d.uuid_text h.pack_bytes
  require (str_eq decoded.pack_id pack_id && decoded.created_at_ns == h.created_at_ns) bad_format
  records ← parse_records decoded.records t.footer_offset
  ok (record {
    bytes = bytes;
    pack_id = pack_id;
    created_at_ns = h.created_at_ns;
    records = records;
    object_checksum = c.hexdigest (c.sha256 bytes);
  })

-- `verify_payload`
unfoldable pub verify_payload : Codec → CaptureDescriptor → List ℕ → Read (Unit {0})
verify_payload c descriptor payload = do
  require (length payload == descriptor.locator.stored_length) bad_integrity
  require (str_eq descriptor.locator.codec "none") bad_format
  require (descriptor.locator.stored_length == descriptor.locator.decoded_length) bad_format
  require (str_eq (c.crc_text (c.crc32 payload % 2 ^ 32)) descriptor.locator.checksum) bad_integrity

-- `_by_capture_id.get`; the identifiers in a footer that was accepted are distinct.
unfoldable pub by_capture_id : String → List IndexedRecord → Option IndexedRecord
by_capture_id capture_id [] = none
by_capture_id capture_id (x ∷ xs) =
    if str_eq x.metadata.capture_id capture_id then some x else by_capture_id capture_id xs

abbrev pub found : Option IndexedRecord → Read IndexedRecord
found none = err bad_format
found (some x) = ok x

-- The locator repeats the entry that the footer has.
abbrev pub same_range : PayloadLocator → IndexedRecord → Bool
same_range l x =
    l.offset == x.offset
    && l.stored_length == x.stored_length
    && l.decoded_length == x.decoded_length
    && str_eq l.codec x.codec
    && str_eq l.checksum x.checksum

-- `PackReader.read_payload`
unfoldable pub read_payload : Codec → PackReader → CaptureDescriptor → Read (List ℕ)
read_payload c p descriptor = do
  require (str_eq descriptor.locator.pack_id p.pack_id) bad_format
  x ← found (by_capture_id descriptor.metadata.capture_id p.records)
  require (metadata_eq descriptor.metadata x.metadata) bad_format
  require (same_range descriptor.locator x) bad_format
  let payload = read_range p.bytes x.offset x.stored_length
  verify_payload c descriptor payload
  ok payload
