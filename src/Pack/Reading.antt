-- ===== src/Pack/Reading.antt =====
-- The whole way of a capture through a pack: `append`, `seal`, `from_bytes`, `read_payload`.
use text.Mathlib.TextPositions.{eq_refl}
use dmi.Base.{
  All, List, String, [], ap, append_assoc, arith, eq_iff, false, length, refl, replicate, some,
  true, ℕ, ◌%◌, ◌++◌, ◌+◌, ◌-◌, ◌<◌, ◌^◌, ◌∙◌, ◌∷◌, ◌≡◌, ◌≤◌,
}
use dmi.Model.{CaptureRecord, CaptureDescriptor, PackRef}
use dmi.Pack.Bytes.{align, aligned_length, concat}
use dmi.Pack.Writer.{
  Codec, PackWriter, IndexedRecord, Result, contains, seal, seal_pack, body, footer, header_size,
  trailer_parts,
}
use dmi.Pack.Writer
use dmi.Pack.Writer.Bounds.{IsSized, seal_fits}
use dmi.Pack.Writer.Layout.{
  Placed, Placed-append, AllNew, IsLaid, Holds, Holds-IsLaid, Holds-IsSized,
}
use dmi.Pack.Reader.{
  ok, Decoder, PackReader, from_bytes, read_payload, by_capture_id, verify_payload,
}
use dmi.Pack.Records.{IsValid, ==_refl, metadata_eq_refl}
use dmi.Pack.RoundTrip.{IsFaithful, Sizes, from_bytes-seal_pack}

-- An element of `_descriptors`: the entry of a footer, and where its pack is.
unfoldable pub descriptor : PackRef → IndexedRecord → CaptureDescriptor
descriptor ref x = record {
  metadata = x.metadata;
  locator = record {
    pack_id = ref.pack_id;
    store_id = ref.store_id;
    object_key = ref.object_key;
    object_bytes = ref.object_bytes;
    pack_checksum = ref.checksum;
    pack_record_count = ref.record_count;
    offset = x.offset;
    stored_length = x.stored_length;
    decoded_length = x.decoded_length;
    codec = x.codec;
    checksum = x.checksum;
  };
}

-- Every capture is read back through its descriptor.
abbrev pub ReadsBack :
    Codec → PackReader → PackRef → List IndexedRecord → List CaptureRecord → Type 0
ReadsBack c p ref [] [] = Unit
ReadsBack c p ref (x ∷ xs) (r ∷ rs) =
    (read_payload c p (descriptor ref x) ≡ ok r.payload) × ReadsBack c p ref xs rs
ReadsBack c p ref _ _ = ⊥

module _ (c : Codec) (p : PackReader) (ref : PackRef) (same_pack : ref.pack_id ≡ p.pack_id) where
  verify_one :
      (start : ℕ) (x : IndexedRecord) (r : CaptureRecord)
      → Placed c p.bytes start (x ∷ []) (r ∷ [])
      → verify_payload c (descriptor ref x) r.payload ≡ ok tt
  unfolding descriptor verify_payload
  verify_one start x r q =
      ground
        (arith, eq_iff x.codec "none", eq_iff (c.crc_text (c.crc32 r.payload % 2 ^ 32)) x.checksum)

  read_one :
      (start : ℕ) (x : IndexedRecord) (r : CaptureRecord)
      → Placed c p.bytes start (x ∷ []) (r ∷ [])
      → by_capture_id x.metadata.capture_id p.records ≡ some x
      → read_payload c p (descriptor ref x) ≡ ok r.payload
  unfolding read_payload descriptor
  read_one start x r q e = rw (
    (eq_iff ref.pack_id p.pack_id).1 same_pack,
    e,
    metadata_eq_refl x.metadata,
    ==_refl x.offset,
    ==_refl x.stored_length,
    ==_refl x.decoded_length,
    eq_refl x.codec,
    eq_refl x.checksum,
    q.3,
    verify_one start x r q,
  )

  -- Identifiers outside `seen` are found among the entries `xs` that are left.
  read_all :
      (start : ℕ) (seen : List String) (xs : List IndexedRecord) (rs : List CaptureRecord)
      → Placed c p.bytes start xs rs
      → AllNew seen rs
      → ((k : String) → contains seen k ≡ false → by_capture_id k p.records ≡ by_capture_id k xs)
      → ReadsBack c p ref xs rs
  unfolding by_capture_id
  read_all start seen [] [] q a here = tt
  read_all start seen [] (r ∷ rs) q a here = q
  read_all start seen (x ∷ xs) [] q a here = q
  read_all start seen (x ∷ xs) (r ∷ rs) q a here =
      let same : x.metadata.capture_id ≡ r.metadata.capture_id = ap (λ m. m.capture_id) q.7 in
      (
        read_one start x r (q.0, q.1, q.2, q.3, q.4, q.5, q.6, q.7, q.8, tt)
            (here x.metadata.capture_id (rw same a.0) ∙ rw (eq_refl x.metadata.capture_id)),
        read_all (x.offset + x.stored_length) (r.metadata.capture_id ∷ seen) xs rs q.9 a.1
            (later same),
      )
    where
      later :
          x.metadata.capture_id ≡ r.metadata.capture_id
          → (k : String) → contains (r.metadata.capture_id ∷ seen) k ≡ false
          → by_capture_id k p.records ≡ by_capture_id k xs
      later same k out = ground (arith, here k)

-- A pack begins with the buffer of its writer.
packed_after :
    (c : Codec) (w : PackWriter) → (more : List ℕ) × ((seal_pack c w).bytes ≡ w.buffer ++ more)
unfolding seal_pack body align
packed_after c w = (
  replicate (aligned_length (length w.buffer) - length w.buffer) 0
      ++ (footer c w ++ concat (trailer_parts c w (body c w))),
  append_assoc (align w.buffer) (footer c w) (concat (trailer_parts c w (body c w)))
      ∙ append_assoc w.buffer (replicate (aligned_length (length w.buffer) - length w.buffer) 0)
          (footer c w ++ concat (trailer_parts c w (body c w))),
)

-- Given faithful encoders, a writer that `__init__` made and that has admitted the valid captures
-- `rs`, at least one, in any number of calls of `append`, with `created_at_ns` and `max_pack_bytes`
-- below 2 ^ 64, and a reference with its `pack_id`: `seal` raises nothing and the pack is within
-- `max_pack_bytes`; `from_bytes` accepts its bytes and has the writer's identity and the
-- checksum that `seal` reported; and `read_payload` returns each capture's bytes.
pub sealed-ReadsBack :
    (c : Codec) (d : Decoder) (w : PackWriter) (rs : List CaptureRecord) (ref : PackRef)
    → IsFaithful c d w
    → Holds c w rs
    → 0 < length rs
    → All IsValid rs
    → w.created_at_ns < 2 ^ 64
    → w.max_pack_bytes < 2 ^ 64
    → ref.pack_id ≡ w.pack_id
    → (p : PackReader) × (seal c w
        ≡ Writer.ok (seal_pack c w, record w { buffer = p.bytes; sealed = true }))
      × (length p.bytes ≤ w.max_pack_bytes)
      × (from_bytes c d (seal_pack c w).bytes ≡ ok p)
      × (p.pack_id ≡ w.pack_id)
      × (p.object_checksum ≡ (seal_pack c w).checksum)
      × ReadsBack c p ref w.records rs
sealed-ReadsBack c d w rs ref f h some_record valid created small same = (
  reader,
  fits.0,
  fits.1,
  from_bytes-seal_pack c d w f rs laid sized sizes valid,
  refl,
  refl,
  read_all c reader ref same header_size [] w.records rs in_pack laid.distinct (λ k _. refl),
)
  where
    laid : IsLaid c w rs
    laid = Holds-IsLaid c f.uuid_16 h

    sized : IsSized c w
    sized = Holds-IsSized c h

    fits :
        (seal c w
          ≡ Writer.ok (seal_pack c w, record w { buffer = (seal_pack c w).bytes; sealed = true }))
        × (length (seal_pack c w).bytes ≤ w.max_pack_bytes)
    fits = seal_fits c w sized (omega (arith, laid.counted, some_record)) (f.sha_32 (body c w))

    sizes : Sizes c d w f rs laid
    sizes = record { created = created; some_record = some_record; small = small }

    reader : PackReader
    reader = record {
      bytes = (seal_pack c w).bytes;
      pack_id = w.pack_id;
      created_at_ns = w.created_at_ns;
      records = w.records;
      object_checksum = (seal_pack c w).checksum;
    }

    in_pack : Placed c reader.bytes header_size w.records rs
    in_pack =
        rw (packed_after c w).1
          (Placed-append c w.buffer (packed_after c w).0 header_size w.records rs laid.placed)
