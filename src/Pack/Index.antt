-- ===== src/Pack/Index.antt =====
-- `PackIndex` of src/dmi/storage/capture/pack.py: the footer of a pack, read from a store by ranges.
use dmi.Base.{
  List, Option, String, if◌then◌else◌, leb, length, min, none, some, str_eq, ℕ, ◌%◌, ◌&&◌, ◌+◌, ◌-◌,
  ◌==◌, ◌^◌,
}
use dmi.Model.{PackRef}
use dmi.Pack.Bytes.{unpack}
use dmi.Pack.Writer.{
  Codec, IndexedRecord, header_size, trailer_size, max_footer_bytes, trailer_magic,
}
use dmi.Pack.Reader.{
  Read, ok, err, bad_format, bad_integrity, ◌>>=◌, ◌>>◌, require, Trailer, trailer_of,
  trailer_widths, Decoder, bytes_eq, decode_footer, parse_records,
}

-- A `PackStore`, as far as it is used here: `read_range` of a reference at an offset.
pub record PackStore : Type 0 where
  pub store_id : String
  pub read_range : PackRef → ℕ → ℕ → List ℕ

pub record PackIndex : Type 0 where
  pub ref : PackRef
  pub records : List IndexedRecord
  pub footer_read_bytes : ℕ

-- `max_footer_read_bytes`
unfoldable pub max_footer_read_bytes : PackRef → ℕ
max_footer_read_bytes ref = trailer_size + min max_footer_bytes (ref.object_bytes - trailer_size)

unfoldable pub check_index_trailer : Trailer → ℕ → Read (Unit {0})
check_index_trailer t trailer_offset = do
  require (bytes_eq t.magic trailer_magic) bad_format
  require (t.major == 1 && leb t.minor 0) bad_format
  require (leb t.footer_length max_footer_bytes) bad_format
  require (leb header_size t.footer_offset && t.footer_offset + t.footer_length == trailer_offset)
      bad_format

-- `str(UUID(…))` of the footer's identity is that of the reference.
abbrev pub check_identity : Option String → String → Read (Unit {0})
check_identity none pack_id = err bad_format
check_identity (some text) pack_id = require (str_eq text pack_id) bad_format

-- What `from_store` makes of the trailer's bytes.
unfoldable pub index_trailer : PackRef → List ℕ → Read Trailer
unfolding check_index_trailer
index_trailer ref bytes = do
  require (length bytes == trailer_size) bad_format
  t ← trailer_of (unpack trailer_widths bytes)
  check_index_trailer t (ref.object_bytes - trailer_size)
  ok t

-- What it makes of the footer's bytes; `normal` is `str(UUID(…))`, which may raise.
unfoldable pub index_footer :
    Codec → Decoder → (String → Option String) → PackRef → Trailer → List ℕ → Read PackIndex
index_footer c d normal ref t footer = do
  require (c.crc32 footer % 2 ^ 32 == t.footer_crc) bad_integrity
  decoded ← decode_footer d footer t.major t.minor
  check_identity (normal decoded.pack_id) ref.pack_id
  records ← parse_records decoded.records t.footer_offset
  require (length records == ref.record_count) bad_format
  ok (record { ref = ref; records = records; footer_read_bytes = trailer_size + t.footer_length })

-- `from_store` of a reference that is of the store.
unfoldable pub read_index :
    Codec → Decoder → (String → Option String) → PackStore → PackRef → Read PackIndex
unfolding index_trailer index_footer
read_index c d normal store ref = do
  require (leb (header_size + trailer_size + 2) ref.object_bytes) bad_format
  t ← index_trailer ref (store.read_range ref (ref.object_bytes - trailer_size) trailer_size)
  index_footer c d normal ref t (store.read_range ref t.footer_offset t.footer_length)

-- `from_store`; `none` is the `ValueError` for a reference of another store.
unfoldable pub from_store :
    Codec → Decoder → (String → Option String) → PackStore → PackRef → Option (Read PackIndex)
unfolding read_index
from_store c d normal store ref =
    if str_eq ref.store_id store.store_id then some (read_index c d normal store ref) else none
