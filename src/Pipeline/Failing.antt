-- ===== src/Pipeline/Failing.antt =====
-- What a step of the worker does to the pending flush, the completed barriers and the error.
use dmi.Base.{
  ℕ, ◌+◌, ◌≡◌, ◌⊎◌, inl, inr, refl, ap, ◌∙◌, Bool, true, false, Option, none, some, List, [], ◌∷◌,
  arith, if_intro, is_some, Bool-cases, Option-cases, ◌&&◌, ◌==◌,
}
use dmi.Model.{CaptureRecord}
use dmi.Queue.{Queue, FlushBarrier, Item, capture, barrier, Outcome}
use dmi.Pack.Writer.{Codec}
use dmi.Assembler.{
  Assembler, ReadyPack, Failure, oversized, duplicate, writer_failed, manual, shutdown, Answer,
  returns, raises,
}
use dmi.Assembler
use dmi.Pipeline.{
  Pipeline, PipelineEvent, Phase, at_get, after_none, holding, latched, closing, ended, complete,
  completion, complete_pending, latch, pipeline_failed,
}
use dmi.Pipeline.Worker.{
  emit, note_persisted, persist, settle, persist_answer, settle_barrier, appended, handle,
  handle_none, got, work_in,
}
use dmi.Pipeline.Persisting.{emit_lem}

abbrev pub is_latched : Phase → Bool
is_latched (latched pending) = true
is_latched (closing pending) = true
is_latched _ = false

-- A barrier that was completed stays so.
abbrev pub Grows : Pipeline → Pipeline → Type 0
Grows p q =
    (token : ℕ)
    → is_some (completion token p.completed) ≡ true
    → is_some (completion token q.completed) ≡ true

-- The worker goes on without an error, or has just latched one and read the pending flush.
pub record Proceeds (p q : Pipeline) : Type 0 where
  pub started : q.started ≡ p.started
  pub pending : q.pending_flush ≡ p.pending_flush
  pub grows : Grows p q
  pub ends :
      ((q.error ≡ p.error) × (is_latched q.phase ≡ false))
      ⊎ ((is_some q.error ≡ true) × (q.phase ≡ latched p.pending_flush))

-- What neither `persist` nor `emit` touches.
record Same (p q : Pipeline) : Type 0 where
  started : q.started ≡ p.started
  pending : q.pending_flush ≡ p.pending_flush
  completed : q.completed ≡ p.completed
  error : q.error ≡ p.error

complete-Grows :
    (b : FlushBarrier) (failed : Bool) (p : Pipeline) → Grows p (complete (some b) failed p)
unfolding complete completion
complete-Grows b failed p token h = ground arith

module _ (c : Codec) (sink : List ReadyPack → ReadyPack → Bool)
    (callback : Option (PipelineEvent → Bool)) (clock_ns : ℕ → ℕ) where
  note_persisted-Same :
      (p : Pipeline) (ready : ReadyPack) → Same p (note_persisted c sink callback clock_ns p ready)
  unfolding note_persisted emit
  note_persisted-Same p ready = record {
    started = ground arith;
    pending = ground arith;
    completed = ground arith;
    error = ground arith;
  }

  persist-Same :
      (p : Pipeline) (packs : List ReadyPack) → Same p (persist c sink callback clock_ns p packs).0
  unfolding persist
  persist-Same p [] = record { started = refl; pending = refl; completed = refl; error = refl }
  persist-Same p (ready ∷ rest) =
      let one = note_persisted-Same p ready in
      let all = persist-Same (note_persisted c sink callback clock_ns p ready) rest in
      elim (Bool-cases (sink p.stored ready)) [
        | inl took ↦ rw took (record {
          started = all.started ∙ one.started;
          pending = all.pending ∙ one.pending;
          completed = all.completed ∙ one.completed;
          error = all.error ∙ one.error;
        })
        | inr refused ↦
            rw refused (record { started = refl; pending = refl; completed = refl; error = refl })
      ]

  settle-Proceeds :
      (next : Phase) (p : Pipeline) (x : Pipeline × Bool)
      → is_latched next ≡ false
      → Same p x.0
      → Proceeds p (settle c sink callback clock_ns next x)
  unfolding settle latch
  settle-Proceeds next p (q, true) h s = record {
    started = s.started;
    pending = s.pending;
    grows = λ token e. rw s.completed e;
    ends = inl (s.error, h);
  }
  settle-Proceeds next p (q, false) h s = record {
    started = s.started;
    pending = s.pending;
    grows = λ token e. rw s.completed e;
    ends = inr (refl, ap latched s.pending);
  }

  persist_answer-Proceeds :
      (next : Phase) (p : Pipeline) (x : Assembler × Answer (List ReadyPack))
      → is_latched next ≡ false
      → Proceeds p (persist_answer c sink callback clock_ns next p x)
  unfolding persist_answer latch
  persist_answer-Proceeds next p (a, returns packs) h =
      let s = persist-Same (record p { assembler = a }) packs in
      settle-Proceeds next p (persist c sink callback clock_ns (record p { assembler = a }) packs) h
        (record {
          started = s.started;
          pending = s.pending;
          completed = s.completed;
          error = s.error;
        })
  persist_answer-Proceeds next p (a, raises e) h = record {
    started = refl;
    pending = refl;
    grows = λ token g. g;
    ends = inr (refl, refl);
  }

  settle-ends :
      (next : Phase) (p : Pipeline) (x : Pipeline × Bool)
      → Same p x.0
      → (is_some (settle c sink callback clock_ns next x).error ≡ true)
        ⊎ (((settle c sink callback clock_ns next x).phase ≡ next)
            × ((settle c sink callback clock_ns next x).completed ≡ p.completed))
  unfolding settle latch
  settle-ends next p (q, true) s = inr (refl, s.completed)
  settle-ends next p (q, false) s = inl refl

  -- Packs are persisted: the worker fails, or it is in the phase that follows, and no barrier was
  -- completed.
  pub persist_answer-ends :
      (next : Phase) (p : Pipeline) (x : Assembler × Answer (List ReadyPack))
      → (is_some (persist_answer c sink callback clock_ns next p x).error ≡ true)
        ⊎ (((persist_answer c sink callback clock_ns next p x).phase ≡ next)
            × ((persist_answer c sink callback clock_ns next p x).completed ≡ p.completed))
  unfolding persist_answer latch
  persist_answer-ends next p (a, returns packs) =
      let s = persist-Same (record p { assembler = a }) packs in
      settle-ends next p (persist c sink callback clock_ns (record p { assembler = a }) packs)
        (record {
          started = s.started;
          pending = s.pending;
          completed = s.completed;
          error = s.error;
        })
  persist_answer-ends next p (a, raises e) = inl refl

  complete-Proceeds :
      (b : FlushBarrier) (failed : Bool) (p q : Pipeline)
      → Proceeds p q
      → Proceeds p (complete (some b) failed q)
  unfolding complete
  complete-Proceeds b failed p q g = record {
    started = g.started;
    pending = g.pending;
    grows = λ token e. unfold complete in complete-Grows b failed q token (g.grows token e);
    ends = g.ends;
  }

  settle_barrier-Proceeds :
      (b : FlushBarrier) (p q : Pipeline)
      → Proceeds p q
      → Proceeds p (settle_barrier c sink callback clock_ns b q)
  unfolding settle_barrier
  settle_barrier-Proceeds b p q g = elim (Option-cases q.error) [
    | inl e ↦ rw (e, settle_barrier) (complete-Proceeds b false p q g)
    | inr (x, e) ↦ rw (e, settle_barrier) (complete-Proceeds b true p q g)
  ]

  emit-Proceeds :
      (event : PipelineEvent) (p q : Pipeline)
      → Proceeds p q
      → Proceeds p (emit c sink callback clock_ns event q)
  emit-Proceeds event p q g =
      let (k, e) = emit_lem c sink callback clock_ns event q in
      rw e (record { started = g.started; pending = g.pending; grows = g.grows; ends = g.ends })

  appended-Proceeds :
      (p : Pipeline) (r : CaptureRecord) (x : Assembler × Answer (List ReadyPack))
      → Proceeds p (appended c sink callback clock_ns p r x)
  unfolding appended
  appended-Proceeds p r (a, raises oversized) =
      emit-Proceeds _ p _
        (record { started = refl; pending = refl; grows = λ token e. e; ends = inl (refl, refl) })
  appended-Proceeds p r (a, raises duplicate) =
      emit-Proceeds _ p _
        (record { started = refl; pending = refl; grows = λ token e. e; ends = inl (refl, refl) })
  appended-Proceeds p r (a, raises (writer_failed e)) =
      persist_answer-Proceeds at_get p (a, raises (writer_failed e)) refl
  appended-Proceeds p r (a, returns packs) =
      persist_answer-Proceeds at_get p (a, returns packs) refl

  -- A reading of the clock makes no difference.
  ticked-Proceeds : (p q : Pipeline) (k : ℕ) → Proceeds (record p { readings = k }) q → Proceeds p q
  ticked-Proceeds p q k g = record {
    started = g.started;
    pending = g.pending;
    grows = g.grows;
    ends = g.ends;
  }

  handle-Proceeds :
      (p : Pipeline) (item : Item) → Proceeds p (handle c sink callback clock_ns p item)
  unfolding handle
  handle-Proceeds p (capture r) = ticked-Proceeds p _ (p.readings + 1) (
      appended-Proceeds (record p { readings = p.readings + 1 }) r
        (Assembler.append c p.assembler r (clock_ns p.readings)))
  handle-Proceeds p (barrier b) =
      settle_barrier-Proceeds b p
        (persist_answer c sink callback clock_ns at_get p (Assembler.flush c p.assembler manual))
        (persist_answer-Proceeds at_get p (Assembler.flush c p.assembler manual) refl)

  handle_none-Proceeds : (p : Pipeline) → Proceeds p (handle_none c sink callback clock_ns p)
  unfolding handle_none
  handle_none-Proceeds p =
      if_intro (Proceeds p) (p.queue.is_closed && p.queue.records == 0)
        (persist_answer-Proceeds ended p (Assembler.flush c p.assembler shutdown) refl)
        (ticked-Proceeds p _ (p.readings + 1) (
          persist_answer-Proceeds at_get (record p { readings = p.readings + 1 })
            (Assembler.flush_expired c p.assembler (clock_ns p.readings)) refl))

  got-Proceeds :
      (p : Pipeline) (q : Queue) (o : Outcome (Option Item))
      → is_latched p.phase ≡ false
      → Proceeds p (got c sink callback clock_ns p (q, o))
  unfolding got latch
  got-Proceeds p q (Outcome.returns none) h = record {
    started = refl;
    pending = refl;
    grows = λ token e. e;
    ends = inl (refl, refl);
  }
  got-Proceeds p q (Outcome.returns (some item)) h = record {
    started = refl;
    pending = refl;
    grows = λ token e. e;
    ends = inl (refl, refl);
  }
  got-Proceeds p q Outcome.blocks h = record {
    started = refl;
    pending = refl;
    grows = λ token e. e;
    ends = inl (refl, h);
  }
  got-Proceeds p q Outcome.value_error h = record {
    started = refl;
    pending = refl;
    grows = λ token e. e;
    ends = inr (refl, refl);
  }

  -- A step of a worker that has latched no error.
  pub work_in-Proceeds :
      (ph : Phase) (p : Pipeline) (entered now : ℕ)
      → p.phase ≡ ph
      → is_latched ph ≡ false
      → Proceeds p (work_in c sink callback clock_ns ph p entered now)
  unfolding work_in
  work_in-Proceeds at_get p entered now e h = got-Proceeds p _ _ (ap is_latched e)
  work_in-Proceeds after_none p entered now e h = handle_none-Proceeds p
  work_in-Proceeds (holding item) p entered now e h = handle-Proceeds p item
  work_in-Proceeds (latched pending) p entered now e h = cc
  work_in-Proceeds (closing pending) p entered now e h = cc
  work_in-Proceeds ended p entered now e h = record {
    started = refl;
    pending = refl;
    grows = λ token g. g;
    ends = inl (refl, ap is_latched e);
  }

  -- The last step of a failed worker.
  pub closing_lem :
      (o : Option FlushBarrier) (p : Pipeline) (entered now : ℕ)
      → ((work_in c sink callback clock_ns (closing o) p entered now).started ≡ p.started)
        × ((work_in c sink callback clock_ns (closing o) p entered now).pending_flush
            ≡ p.pending_flush)
        × ((work_in c sink callback clock_ns (closing o) p entered now).error ≡ p.error)
        × ((work_in c sink callback clock_ns (closing o) p entered now).phase ≡ ended)
        × Grows p (work_in c sink callback clock_ns (closing o) p entered now)
  unfolding work_in complete_pending complete completion
  closing_lem o p entered now =
      let q = complete_pending o (record p { phase = ended }) in
      let (k, e) = emit_lem c sink callback clock_ns pipeline_failed q in
      rw e (ground arith, ground arith, ground arith, ground arith, λ token h. ground arith)

  -- It completes the barrier that the worker saw pending.
  pub closing_completes :
      (p : Pipeline) (b : FlushBarrier) (entered now : ℕ)
      → is_some (
          completion b.token
            (work_in c sink callback clock_ns (closing (some b)) p entered now).completed)
        ≡ true
  unfolding work_in complete_pending complete completion
  closing_completes p b entered now =
      let q = complete_pending (some b) (record p { phase = ended }) in
      let (k, e) = emit_lem c sink callback clock_ns pipeline_failed q in rw e (ground arith)
