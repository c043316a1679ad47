-- ===== src/Pack/Writer/Sealing.antt =====
-- `PackWriter` from `__init__` through calls of `append` to `seal`: what `append` has checked is enough
-- for what `seal` checks.
use dmi.Base.{
  ℕ, ◌≡◌, ◌≤◌, ◌<◌, ◌+◌, String, refl, ap, ◌∙◌, true, List, [], ◌∷◌, length, length-append, arith,
}
use dmi.Model.{CaptureRecord}
use dmi.Pack.Writer.{
  Codec, PackWriter, Result, ok, err, new, append, write_record, index_record, seal, seal_pack,
  body,
}
use dmi.Pack.Writer.Bounds.{IsSized, append-IsSized, append-IsAdmitted, new-IsSized, seal_fits}

module _ (c : Codec) where
  -- Calls of `append`, up to the first that raises.
  unfoldable pub append_all : PackWriter → List CaptureRecord → Result PackWriter
  append_all w [] = ok w
  append_all w (r ∷ rs) = elim (append c w r) [ ok v ↦ append_all v rs | err e ↦ err e ]

  new_ok :
      (pack_id : String) (created max_bytes max_records : ℕ) (w : PackWriter)
      → new c pack_id created max_bytes max_records ≡ ok w
      → (w.max_pack_bytes ≡ max_bytes) × (length w.records ≡ 0)
  unfolding new
  new_ok pack_id created max_bytes max_records w h = ground arith

  -- What calls of `append` lead to.
  record Grown (w w' : PackWriter) (n : ℕ) : Type 0 where
    sized : IsSized c w'
    limit : w'.max_pack_bytes ≡ w.max_pack_bytes
    count : length w'.records ≡ length w.records + n

  append-Grown :
      (w w' : PackWriter) (r : CaptureRecord) → IsSized c w → append c w r ≡ ok w' → Grown w w' 1
  unfolding write_record
  append-Grown w w' r s h =
      let written = (append-IsAdmitted c w w' r h).written in
      record {
        sized = append-IsSized c w w' r h s;
        limit = ap (λ (x : PackWriter). x.max_pack_bytes) written;
        count = omega (
          arith,
          ap (λ (x : PackWriter). length x.records) written,
          length-append w.records (index_record c w r ∷ []),
        );
      }

  ok_same : {v w : PackWriter} → Result.ok v ≡ ok w → v ≡ w
  ok_same h = cc

  append_all-Grown :
      (w w' : PackWriter) (rs : List CaptureRecord)
      → IsSized c w
      → append_all w rs ≡ ok w'
      → Grown w w' (length rs)
  unfolding append_all
  append_all-Grown w w' [] s h =
      rw (← ok_same h) (record { sized = s; limit = refl; count = omega arith })
  append_all-Grown w w' (r ∷ rs) s h = split (append c w r) refl (λ v. append_all-Grown v w' rs) h
    where
      split :
          (x : Result PackWriter)
          → append c w r ≡ x
          → ((v : PackWriter) → IsSized c v → append_all v rs ≡ ok w' → Grown v w' (length rs))
          → (elim x [ ok v ↦ append_all v rs | err e ↦ err e ]) ≡ ok w'
          → Grown w w' (length (r ∷ rs))
      split (err e) at grows h = cc
      split (ok v) at grows h =
          let first = append-Grown w v r s at in
          let rest = grows v first.sized h in
          record {
            sized = rest.sized;
            limit = rest.limit ∙ first.limit;
            count = omega (arith, rest.count, first.count);
          }

  -- A writer that `__init__` made and to which calls of `append` added the captures `rs`, at least
  -- one, none of them raising, is sealed without an error, if a digest has 32 bytes: the pack has at
  -- most the `max_pack_bytes` that `__init__` was given, and counts the captures of `rs`.
  pub appended_seals :
      (pack_id : String) (created max_bytes max_records : ℕ) (rs : List CaptureRecord)
      (w w' : PackWriter)
      → ((bytes : List ℕ) → length (c.sha256 bytes) ≡ 32)
      → new c pack_id created max_bytes max_records ≡ ok w
      → append_all w rs ≡ ok w'
      → 0 < length rs
      → (seal c w'
          ≡ ok (seal_pack c w', record w' { buffer = (seal_pack c w').bytes; sealed = true }))
        × (length (seal_pack c w').bytes ≤ max_bytes)
        × ((seal_pack c w').record_count ≡ length rs)
  unfolding seal_pack
  appended_seals pack_id created max_bytes max_records rs w w' sha_32 made grown some_record =
      let g =
        append_all-Grown w w' rs (new-IsSized c pack_id created max_bytes max_records w made)
          grown in
      let e = new_ok pack_id created max_bytes max_records w made in
      let fits =
        seal_fits c w' g.sized (omega (arith, g.count, some_record)) (sha_32 (body c w')) in
      (fits.0, omega (arith, fits.1, g.limit, e.0), omega (arith, g.count, e.1))
