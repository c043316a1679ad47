-- ===== src/Pack/Writer.antt =====
-- `PackWriter` and `SealedPack` of src/dmi/storage/capture/pack.py.
-- The digests, the JSON encoder and the UUID's bytes are other code: they are the fields of `Codec`,
-- of which the theorems use nothing unless they say so.
pub mod Bounds
pub mod Sealing
pub mod Layout
use dmi.Base.{
  Bool, List, String, [], false, if◌then◌else◌, leb, length, ltb, replicate, str_eq, true, ℕ, ◌%◌,
  ◌*◌, ◌++◌, ◌+◌, ◌==◌, ◌^◌, ◌||◌, ◌∷◌,
}
use dmi.Model.{CaptureMetadata, CaptureRecord}
use dmi.Pack.Bytes.{aligned_length, align, le_bytes, concat}

pub record IndexedRecord : Type 0 where
  pub metadata : CaptureMetadata
  pub offset : ℕ
  pub stored_length : ℕ
  pub decoded_length : ℕ
  pub codec : String
  pub checksum : String

pub record Codec : Type 0 where
  -- `_encode_json (_record_mapping item)`
  pub encode_record : IndexedRecord → List ℕ
  -- the footer of no records, cut at its last `[]`
  pub footer_prefix : String → ℕ → List ℕ
  pub footer_suffix : String → ℕ → List ℕ
  pub crc32 : List ℕ → ℕ
  pub crc_text : ℕ → String
  pub sha256 : List ℕ → List ℕ
  pub hexdigest : List ℕ → String
  pub uuid_bytes : String → List ℕ

abbrev pub header_size : ℕ
header_size = 64

abbrev pub trailer_size : ℕ
trailer_size = 64

abbrev pub max_footer_bytes : ℕ
max_footer_bytes = 64 * 1024 * 1024

abbrev pub max_records_limit : ℕ
max_records_limit = 1_000_000

abbrev pub header_magic : List ℕ
header_magic = b'D' ∷ b'M' ∷ b'I' ∷ b'P' ∷ b'A' ∷ b'C' ∷ b'K' ∷ 0 ∷ []

abbrev pub trailer_magic : List ℕ
trailer_magic = b'D' ∷ b'M' ∷ b'I' ∷ b'F' ∷ b'T' ∷ b'R' ∷ 0 ∷ 0 ∷ []

-- `PackStateError`, `PackCapacityError`, `DuplicateCaptureError`, the `ValueError`s, and the
-- `struct.error` of a header field that is out of range.
pub data WriteError : Type 0 where
  already_sealed over_capacity duplicate_capture bad_limits empty_pack : WriteError
  footer_too_large pack_too_large struct_error : WriteError

pub data Result {ℓ} (A : Type ℓ) : Type ℓ where
  ok : A → Result A
  err : WriteError → Result A

pub record PackWriter : Type 0 where
  pub pack_id : String
  pub created_at_ns : ℕ
  pub max_pack_bytes : ℕ
  pub max_records : ℕ
  pub buffer : List ℕ
  pub records : List IndexedRecord
  pub record_json : List (List ℕ)
  pub record_json_bytes : ℕ
  pub capture_ids : List String
  pub sealed : Bool

pub record SealedPack : Type 0 where
  pub pack_id : String
  pub created_at_ns : ℕ
  pub bytes : List ℕ
  pub record_count : ℕ
  pub footer_offset : ℕ
  pub checksum : String

abbrev pub contains : List String → String → Bool
contains [] s = false
contains (x ∷ xs) s = str_eq x s || contains xs s

-- `b",".join(…)`
unfoldable pub join : List (List ℕ) → List ℕ
join [] = []
join (x ∷ []) = x
join (x ∷ y ∷ rest) = x ++ (b',' ∷ join (y ∷ rest))

module _ (c : Codec) where
  -- The fields of `_HEADER`, "<8sHHI16sQI20s".
  unfoldable pub header_parts : String → ℕ → List (List ℕ)
  header_parts pack_id created_at_ns =
      header_magic
      ∷ le_bytes 2 1
      ∷ le_bytes 2 0
      ∷ le_bytes 4 header_size
      ∷ c.uuid_bytes pack_id
      ∷ le_bytes 8 created_at_ns
      ∷ le_bytes 4 0
      ∷ replicate 20 0
      ∷ []

  abbrev pub fresh : String → ℕ → ℕ → ℕ → PackWriter
  fresh pack_id created_at_ns max_pack_bytes max_records = record {
    pack_id = pack_id;
    created_at_ns = created_at_ns;
    max_pack_bytes = max_pack_bytes;
    max_records = max_records;
    buffer = concat (header_parts pack_id created_at_ns);
    records = [];
    record_json = [];
    record_json_bytes = 0;
    capture_ids = [];
    sealed = false;
  }

  -- `__init__`, with a `pack_id` that is a UUID.
  unfoldable pub new : String → ℕ → ℕ → ℕ → Result PackWriter
  new pack_id created_at_ns max_pack_bytes max_records =
      if ltb max_pack_bytes (header_size + trailer_size + 2)
      then err bad_limits
      else if ltb max_records 1 || ltb max_records_limit max_records
      then err bad_limits
      else if leb (2 ^ 64) created_at_ns
      then err struct_error
      else ok (fresh pack_id created_at_ns max_pack_bytes max_records)

  unfoldable pub index_record : PackWriter → CaptureRecord → IndexedRecord
  index_record w r = record {
    metadata = r.metadata;
    offset = aligned_length (length w.buffer);
    stored_length = length r.payload;
    decoded_length = length r.payload;
    codec = "none";
    checksum = c.crc_text (c.crc32 r.payload % 2 ^ 32);
  }

  -- The footer's length with `json` added to the encoded records.
  unfoldable pub projected_footer : PackWriter → List ℕ → ℕ
  projected_footer w json =
      length (c.footer_prefix w.pack_id w.created_at_ns)
      + 2
      + (w.record_json_bytes + length json)
      + length w.record_json
      + length (c.footer_suffix w.pack_id w.created_at_ns)

  -- What `append` writes once its checks have passed.
  unfoldable pub write_record : PackWriter → CaptureRecord → PackWriter
  write_record w r = record w {
    buffer = align w.buffer ++ r.payload;
    records = w.records ++ index_record w r ∷ [];
    record_json = w.record_json ++ c.encode_record (index_record w r) ∷ [];
    record_json_bytes = w.record_json_bytes + length (c.encode_record (index_record w r));
    capture_ids = r.metadata.capture_id ∷ w.capture_ids;
  }

  unfoldable pub append : PackWriter → CaptureRecord → Result PackWriter
  append w r =
      let footer_length = projected_footer w (c.encode_record (index_record w r)) in
      let projected =
        aligned_length (aligned_length (length w.buffer) + length r.payload)
        + footer_length
        + trailer_size in
      if w.sealed
      then err already_sealed
      else if leb w.max_records (length w.records)
      then err over_capacity
      else if contains w.capture_ids r.metadata.capture_id
      then err duplicate_capture
      else if ltb max_footer_bytes footer_length || ltb w.max_pack_bytes projected
      then err over_capacity
      else ok (write_record w r)

  -- `_footer_prefix + b"[" + b",".join(_record_json) + b"]" + _footer_suffix`
  unfoldable pub footer : PackWriter → List ℕ
  unfolding join
  footer w =
      c.footer_prefix w.pack_id w.created_at_ns
      ++ (b'[' ∷ join w.record_json ++ (b']' ∷ c.footer_suffix w.pack_id w.created_at_ns))

  -- The fields of `_TRAILER`, "<8sHHQQI32s".
  unfoldable pub trailer_parts : PackWriter → List ℕ → List (List ℕ)
  trailer_parts w body =
      trailer_magic
      ∷ le_bytes 2 1
      ∷ le_bytes 2 0
      ∷ le_bytes 8 (aligned_length (length w.buffer))
      ∷ le_bytes 8 (length (footer w))
      ∷ le_bytes 4 (c.crc32 (footer w) % 2 ^ 32)
      ∷ c.sha256 body
      ∷ []

  unfoldable pub body : PackWriter → List ℕ
  body w = align w.buffer ++ footer w

  unfoldable pub seal_pack : PackWriter → SealedPack
  unfolding body trailer_parts footer
  seal_pack w = record {
    pack_id = w.pack_id;
    created_at_ns = w.created_at_ns;
    bytes = body w ++ concat (trailer_parts w (body w));
    record_count = length w.records;
    footer_offset = aligned_length (length w.buffer);
    checksum = c.hexdigest (c.sha256 (body w ++ concat (trailer_parts w (body w))));
  }

  -- A sealed writer's buffer is the whole pack; the pack comes beside the writer.
  unfoldable pub seal : PackWriter → Result (SealedPack × PackWriter)
  unfolding seal_pack
  seal w =
      if w.sealed
      then err already_sealed
      else if length w.records == 0
      then err empty_pack
      else if ltb max_footer_bytes (length (footer w))
      then err footer_too_large
      else if ltb w.max_pack_bytes
          (aligned_length (length w.buffer) + length (footer w) + trailer_size)
      then err pack_too_large
      else ok (seal_pack w, record w { buffer = (seal_pack w).bytes; sealed = true })
