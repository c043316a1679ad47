-- ===== src/Assembler/Limits.antt =====
-- No method changes the limits of an assembler, whether it raises or not.
use dmi.Base.{ℕ, ◌≡◌, refl, ◌∙◌, List, arith}
use dmi.Model.{CaptureRecord}
use dmi.Pack.Writer.{Codec}
use dmi.Assembler.{
  Assembler, ReadyPack, Answer, returns, raises, FlushReason, flush, flush_expired, flush_if_full,
  linger, records, append_current, append_to, append_same, append, writer_with, adopt, prepend,
  ◌then_do◌, sealed_pack,
}

module _ (c : Codec) where
  max_records-flush :
      (a : Assembler) (reason : FlushReason) → (flush c a reason).0.max_records ≡ a.max_records
  unfolding flush sealed_pack
  max_records-flush a reason = ground arith

  max_records-flush_expired :
      (a : Assembler) (now_ns : ℕ) → (flush_expired c a now_ns).0.max_records ≡ a.max_records
  unfolding flush_expired
  max_records-flush_expired a now_ns = ground (arith, max_records-flush a linger)

  max_records-flush_if_full : (a : Assembler) → (flush_if_full c a).0.max_records ≡ a.max_records
  unfolding flush_if_full
  max_records-flush_if_full a = ground (arith, max_records-flush a records)

  max_records-append_current :
      (a : Assembler) (r : CaptureRecord) (now_ns : ℕ)
      → (append_current c a r now_ns).0.max_records ≡ a.max_records
  unfolding append_current append_to append_same flush writer_with adopt
  max_records-append_current a r now_ns = ground arith

  max_records-prepend :
      (packs : List ReadyPack) (x : Assembler × Answer (List ReadyPack))
      → (prepend packs x).0.max_records ≡ x.0.max_records
  max_records-prepend packs (a, returns more) = refl
  max_records-prepend packs (a, raises e) = refl

  max_records-then_do :
      (n : ℕ) (x : Assembler × Answer (List ReadyPack))
      (f : Assembler → Assembler × Answer (List ReadyPack))
      → x.0.max_records ≡ n
      → ((b : Assembler) → b.max_records ≡ n → (f b).0.max_records ≡ n)
      → (x then_do f).0.max_records ≡ n
  max_records-then_do n (a, raises e) f h g = h
  max_records-then_do n (a, returns packs) f h g = max_records-prepend packs (f a) ∙ g a h

  pub max_records-append :
      (a : Assembler) (r : CaptureRecord) (now_ns : ℕ)
      → (append c a r now_ns).0.max_records ≡ a.max_records
  unfolding append
  max_records-append a r now_ns =
      max_records-then_do a.max_records (flush_expired c a now_ns) _
        (max_records-flush_expired a now_ns)
        λ b e.
          max_records-then_do a.max_records (append_current c b r now_ns) _
            (max_records-append_current b r now_ns ∙ e) λ d e'. max_records-flush_if_full d ∙ e'
