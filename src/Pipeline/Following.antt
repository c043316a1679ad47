-- ===== src/Pipeline/Following.antt =====
-- How the worker goes on after it has used an item.
use dmi.Base.{
  ℕ, ◌+◌, ◌≡◌, ◌⊎◌, inl, inr, refl, ◌∙◌, Bool, true, false, Option, List, [], ◌∷◌, arith, if_intro,
  Option-cases,
}
use dmi.Model.{CaptureRecord}
use dmi.Queue.{FlushBarrier, Item, capture, barrier}
use dmi.Pack.Writer.{Codec}
use dmi.Assembler.{
  Assembler, ReadyPack, Answer, oversized, duplicate, writer_failed, manual, shutdown, returns,
  raises,
}
use dmi.Assembler
use dmi.Pipeline.{Pipeline, PipelineEvent, Phase, at_get, latched, complete, latch}
use dmi.Pipeline.Worker.{
  emit, note_persisted, persist, settle, persist_answer, settle_barrier, appended, handle,
}
use dmi.Pipeline.Persisting.{emit_lem}

-- Packs are persisted: the queue is as it was, and the worker goes on, or has latched an error.
pub record Follows (next : Phase) (p q : Pipeline) : Type 0 where
  pub queue : q.queue ≡ p.queue
  pub started : q.started ≡ p.started
  pub phase : (q.phase ≡ next) ⊎ ((o : Option FlushBarrier) × (q.phase ≡ latched o))

module _ (c : Codec) (sink : List ReadyPack → ReadyPack → Bool)
    (callback : Option (PipelineEvent → Bool)) (clock_ns : ℕ → ℕ) where
  note-same :
      (p : Pipeline) (ready : ReadyPack)
      → ((note_persisted c sink callback clock_ns p ready).queue ≡ p.queue)
        × ((note_persisted c sink callback clock_ns p ready).started ≡ p.started)
  unfolding note_persisted emit
  note-same p ready = (ground arith, ground arith)

  persist-Follows :
      (p : Pipeline) (packs : List ReadyPack)
      → ((persist c sink callback clock_ns p packs).0.queue ≡ p.queue)
        × ((persist c sink callback clock_ns p packs).0.started ≡ p.started)
  unfolding persist
  persist-Follows p [] = (refl, refl)
  persist-Follows p (ready ∷ rest) =
      let h = persist-Follows (note_persisted c sink callback clock_ns p ready) rest in
      let k = note-same p ready in
      if_intro (λ (x : Pipeline × Bool). (x.0.queue ≡ p.queue) × (x.0.started ≡ p.started))
        (sink p.stored ready) (h.0 ∙ k.0, h.1 ∙ k.1) (refl, refl)

  settle-Follows :
      (next : Phase) (p : Pipeline) (x : Pipeline × Bool)
      → x.0.queue ≡ p.queue
      → x.0.started ≡ p.started
      → Follows next p (settle c sink callback clock_ns next x)
  unfolding settle latch
  settle-Follows next p (q, true) e s = record { queue = e; started = s; phase = inl refl }
  settle-Follows next p (q, false) e s = record {
    queue = e;
    started = s;
    phase = inr (q.pending_flush, refl);
  }

  pub persist_answer-Follows :
      (next : Phase) (p : Pipeline) (x : Assembler × Answer (List ReadyPack))
      → Follows next p (persist_answer c sink callback clock_ns next p x)
  unfolding persist_answer latch
  persist_answer-Follows next p (a, returns packs) =
      let h = persist-Follows (record p { assembler = a }) packs in
      settle-Follows next p (persist c sink callback clock_ns (record p { assembler = a }) packs)
        h.0 h.1
  persist_answer-Follows next p (a, raises e) = record {
    queue = refl;
    started = refl;
    phase = inr (p.pending_flush, refl);
  }

  emit-Follows :
      (event : PipelineEvent) (next : Phase) (p q : Pipeline)
      → Follows next p q
      → Follows next p (emit c sink callback clock_ns event q)
  emit-Follows event next p q f =
      let (k, e) = emit_lem c sink callback clock_ns event q in
      rw e (record { queue = f.queue; started = f.started; phase = f.phase })

  appended-Follows :
      (p : Pipeline) (r : CaptureRecord) (x : Assembler × Answer (List ReadyPack))
      → Follows at_get p (appended c sink callback clock_ns p r x)
  unfolding appended
  appended-Follows p r (a, raises oversized) =
      emit-Follows _ at_get p _ (record { queue = refl; started = refl; phase = inl refl })
  appended-Follows p r (a, raises duplicate) =
      emit-Follows _ at_get p _ (record { queue = refl; started = refl; phase = inl refl })
  appended-Follows p r (a, raises (writer_failed e)) =
      persist_answer-Follows at_get p (a, raises (writer_failed e))
  appended-Follows p r (a, returns packs) = persist_answer-Follows at_get p (a, returns packs)

  settle_barrier-Follows :
      (b : FlushBarrier) (p q : Pipeline)
      → Follows at_get p q
      → Follows at_get p (settle_barrier c sink callback clock_ns b q)
  unfolding settle_barrier complete
  settle_barrier-Follows b p q f = elim (Option-cases q.error) [
    | inl e ↦
        rw (e, settle_barrier) (record { queue = f.queue; started = f.started; phase = f.phase })
    | inr (x, e) ↦
        rw (e, settle_barrier) (record { queue = f.queue; started = f.started; phase = f.phase })
  ]

  pub handle-Follows :
      (p : Pipeline) (item : Item) → Follows at_get p (handle c sink callback clock_ns p item)
  unfolding handle
  handle-Follows p (capture r) =
      let f =
        appended-Follows (record p { readings = p.readings + 1 }) r
          (Assembler.append c p.assembler r (clock_ns p.readings)) in
      record { queue = f.queue; started = f.started; phase = f.phase }
  handle-Follows p (barrier b) =
      settle_barrier-Follows b p
        (persist_answer c sink callback clock_ns at_get p (Assembler.flush c p.assembler manual))
        (persist_answer-Follows at_get p (Assembler.flush c p.assembler manual))
