-- ===== src/Pipeline/Persisting.antt =====
-- What `_persist` changes of the pipeline: the packs go to the sink, in order, and are counted.
use dmi.Base.{
  ℕ, ◌+◌, ◌≡◌, inl, inr, refl, sym, ap, ◌∙◌, Bool, true, false, Option, some, List, [], ◌∷◌, ◌++◌,
  append-nil, append_assoc, arith, Bool-cases, length, length-append, total, total-append,
}
use dmi.Pack.Writer.{Codec}
use dmi.Assembler.{ReadyPack}
use dmi.Pipeline.{
  is_failing, Pipeline, PipelineEvent, sink_error, Phase, count_reason, count_pack, latch,
}
use dmi.Pipeline.Worker.{emit, note_persisted, persist, settle}

-- The records that the sink has been handed.
abbrev pub record_counts : List ReadyPack → ℕ
record_counts packs = total (λ ready. ready.pack.record_count) packs

-- What persisting some packs changes: only the counters, the clock and what is stored.
pub record Persisted (p q : Pipeline) (packs : List ReadyPack) : Type 0 where
  pub assembler : q.assembler ≡ p.assembler
  pub queue : q.queue ≡ p.queue
  pub error : q.error ≡ p.error
  pub started : q.started ≡ p.started
  pub stored : q.stored ≡ p.stored ++ packs
  pub records : q.counters.persisted_records ≡ p.counters.persisted_records + record_counts packs
  pub packs_persisted : q.counters.packs_persisted ≡ p.counters.packs_persisted + length packs
  pub oversized_records : q.counters.oversized_records ≡ p.counters.oversized_records
  pub duplicate_records : q.counters.duplicate_records ≡ p.counters.duplicate_records

module _ (c : Codec) (sink : List ReadyPack → ReadyPack → Bool)
    (callback : Option (PipelineEvent → Bool)) (clock_ns : ℕ → ℕ) where
  note_persisted-Persisted :
      (p : Pipeline) (ready : ReadyPack)
      → Persisted p (note_persisted c sink callback clock_ns p ready) (ready ∷ [])
  unfolding note_persisted emit count_pack count_reason
  note_persisted-Persisted p ready = record {
    assembler = ground arith;
    queue = ground arith;
    error = ground arith;
    started = ground arith;
    stored = ground arith;
    records = ground arith;
    packs_persisted = ground arith;
    oversized_records = ground arith;
    duplicate_records = ground arith;
  }

  Persisted-trans :
      (p q r : Pipeline) (xs ys : List ReadyPack)
      → Persisted p q xs
      → Persisted q r ys
      → Persisted p r (xs ++ ys)
  Persisted-trans p q r xs ys a b = record {
    assembler = b.assembler ∙ a.assembler;
    queue = b.queue ∙ a.queue;
    error = b.error ∙ a.error;
    started = b.started ∙ a.started;
    stored = b.stored ∙ ap (λ l. l ++ ys) a.stored ∙ append_assoc p.stored xs ys;
    records =
        omega (
          arith,
          a.records,
          b.records,
          total-append (λ (r : ReadyPack). r.pack.record_count) xs ys,
        );
    packs_persisted = omega (arith, a.packs_persisted, b.packs_persisted, length-append xs ys);
    oversized_records = omega (arith, a.oversized_records, b.oversized_records);
    duplicate_records = omega (arith, a.duplicate_records, b.duplicate_records);
  }

  pub persist-Persisted :
      (p : Pipeline) (packs : List ReadyPack)
      → (persist c sink callback clock_ns p packs).1 ≡ true
      → Persisted p (persist c sink callback clock_ns p packs).0 packs
  unfolding persist
  persist-Persisted p [] h = record {
    assembler = refl;
    queue = refl;
    error = refl;
    started = refl;
    stored = sym (append-nil p.stored);
    records = omega arith;
    packs_persisted = omega arith;
    oversized_records = refl;
    duplicate_records = refl;
  }
  persist-Persisted p (ready ∷ rest) h = elim (Bool-cases (sink p.stored ready)) [
    | inl took ↦ rw took (
        Persisted-trans p (note_persisted c sink callback clock_ns p ready) _ (ready ∷ []) rest
          (note_persisted-Persisted p ready)
          (persist-Persisted (note_persisted c sink callback clock_ns p ready) rest (rw took at h)))
    | inr refused ↦ absurd (ground arith)
  ]

  pub settle-true :
      (next : Phase) (x : Pipeline × Bool)
      → x.1 ≡ true
      → settle c sink callback clock_ns next x ≡ record x.0 { phase = next }
  unfolding settle
  settle-true next (q, true) h = refl
  settle-true next (q, false) h = cc

  pub settle-false :
      (next : Phase) (x : Pipeline × Bool)
      → x.1 ≡ false
      → ((settle c sink callback clock_ns next x).error ≡ some sink_error)
        × (is_failing (settle c sink callback clock_ns next x).phase ≡ true)
  unfolding settle latch
  settle-false next (q, true) h = cc
  settle-false next (q, false) h = (refl, refl)

  -- `_emit` changes at most the one counter.
  pub emit_lem :
      (event : PipelineEvent) (p : Pipeline)
      → (k : ℕ) × (emit c sink callback clock_ns event p
          ≡ record p { counters = record p.counters { event_callback_failures = k } })
  unfolding emit
  emit_lem event p =
      ((emit c sink callback clock_ns event p).counters.event_callback_failures, ground arith)
