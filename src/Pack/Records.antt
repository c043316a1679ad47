-- ===== src/Pack/Records.antt =====
-- The entries that the writer indexed pass the checks of `_parse_records`.
use text.Mathlib.TextPositions.{eq_refl}
use dmi.Base.{
  All, List, Option, String, [], ap, arith, eq_iff, length, le→leb, none, refl, some, true, ℕ, ◌%◌,
  ◌+◌, ◌==◌, ◌^◌, ◌∷◌, ◌≡◌, ◌≤◌,
}
use dmi.Model.{
  CaptureRecord, CaptureMetadata, metadata_valid, record_valid, metadata_eq, layer_eq, Layer,
  optional_eq, shape_eq,
}
use dmi.Pack.Writer.{Codec, IndexedRecord, header_size}
use dmi.Pack.Writer.Layout.{Placed, AllNew}
use dmi.Pack.Reader.{ok, parse_record, is_hex_text, bytes_eq, parse_from}

pub ==_refl : (n : ℕ) → (n == n) ≡ true
==_refl n = ground arith

pub bytes_eq_refl : (xs : List ℕ) → bytes_eq xs xs ≡ true
bytes_eq_refl [] = refl
bytes_eq_refl (x ∷ xs) = rw (==_refl x, bytes_eq_refl xs)

shape_eq_refl : (xs : List ℕ) → shape_eq xs xs ≡ true
shape_eq_refl [] = refl
shape_eq_refl (x ∷ xs) = rw (==_refl x, shape_eq_refl xs)

layer_eq_refl : (l : Layer) → layer_eq l l ≡ true
layer_eq_refl Layer.global = refl
layer_eq_refl (Layer.layer n) = ==_refl n

optional_eq_refl : (o : Option String) → optional_eq o o ≡ true
optional_eq_refl none = refl
optional_eq_refl (some s) = eq_refl s

pub metadata_eq_refl : (m : CaptureMetadata) → metadata_eq m m ≡ true
unfolding metadata_eq
metadata_eq_refl m = simp (eq_refl, ==_refl, shape_eq_refl, layer_eq_refl, optional_eq_refl)

-- Both `__post_init__` checks passed.
pub record IsValid (r : CaptureRecord) : Type 0 where
  pub metadata_ok : metadata_valid r.metadata ≡ true
  pub payload_ok : record_valid r ≡ true

module _ (c : Codec) (crc_hex : (n : ℕ) → is_hex_text 8 (c.crc_text (n % 2 ^ 32)) ≡ true) where
  parse_record-Placed :
      (buffer : List ℕ) (start footer_offset : ℕ) (x : IndexedRecord) (r : CaptureRecord)
      → header_size ≤ start
      → length buffer ≤ footer_offset
      → Placed c buffer start (x ∷ []) (r ∷ [])
      → IsValid r
      → parse_record footer_offset x ≡ ok x
  unfolding parse_record record_valid
  parse_record-Placed buffer start footer_offset x r h le p v =
      ground
        (arith, crc_hex (c.crc32 r.payload), eq_iff x.codec "none", v.metadata_ok, v.payload_ok)

  pub parse_from-Placed :
      (buffer : List ℕ) (start footer_offset : ℕ) (seen : List String) (xs : List IndexedRecord)
      (rs : List CaptureRecord)
      → header_size ≤ start
      → length buffer ≤ footer_offset
      → Placed c buffer start xs rs
      → AllNew seen rs
      → All IsValid rs
      → parse_from footer_offset start seen xs ≡ ok xs
  unfolding parse_from
  parse_from-Placed buffer start footer_offset seen [] rs h le p a v = refl
  parse_from-Placed buffer start footer_offset seen (x ∷ xs) [] h le p a v = absurd p
  parse_from-Placed buffer start footer_offset seen (x ∷ xs) (r ∷ rs) h le p a v =
      let one =
        parse_record-Placed buffer start footer_offset x r h le
          (p.0, p.1, p.2, p.3, p.4, p.5, p.6, p.7, p.8, tt) v.0 in
      let same : x.metadata.capture_id ≡ r.metadata.capture_id = ap (λ m. m.capture_id) p.7 in
      rw (one, same, a.0, le→leb start x.offset p.0)
        (rw (
          parse_from-Placed buffer (x.offset + x.stored_length) footer_offset
            (r.metadata.capture_id ∷ seen) xs rs (omega (arith, p.0, h)) le p.9 a.1 v.1))
