-- ===== src/Pipeline/Abandoned.antt =====
-- A `flush` and a `close` that come between the worker's `get` and its look at the queue.
use dmi.Base.{
  ℕ, ◌+◌, ◌≡◌, ◌⊎◌, inl, inr, refl, ap, ◌∙◌, Bool, true, false, not, ◌&&◌, Option, none, some, List,
  [], ◌∷◌, ◌++◌, ◌==◌, is_some, if_intro, ap₂, length, ltb,
}
use dmi.Model.{CaptureRecord}
use dmi.Queue.{Queue, FlushBarrier, Item, barrier}
use dmi.Queue
use dmi.Assembler.{Assembler, ReadyPack, shutdown}
use dmi.Assembler
use dmi.Pack.Writer.{Codec}
use dmi.Pipeline.{Pipeline, PipelineEvent, Phase, after_none, ended, completion}
use dmi.Pipeline.Worker.{handle_none, work_in, work}
use dmi.Pipeline.Clients.{
  Waiter, asks, awaits, flush_step, after_wait, submit_put, submit_begin, submit_end, Entry,
}
use dmi.Pipeline.Runs.{Call, begins, puts, ends, puts_barrier, closes, works, step}
use dmi.Pipeline.Failing.{persist_answer-ends}
use dmi.Pipeline.Waiting.{work_started}
use dmi.Pipeline.Flushing.{Move, flushes, calls, acts, move, moves}

-- Moves in which no deadline passes: those of `flush(timeout=None)`.
unfoldable pub all_patient : List Move → Bool
all_patient [] = true
all_patient (flushes late ∷ ms) = not late && all_patient ms
all_patient (calls target ∷ ms) = all_patient ms
all_patient (acts call ∷ ms) = all_patient ms

-- The barrier of the next call of `flush`, and the pipeline that it waits in.
abbrev pub next_barrier : Pipeline → ℕ → FlushBarrier
next_barrier p target = record { token = p.barriers; target_admitted = target }

abbrev pub waited : Pipeline → ℕ → Pipeline
waited p target = record p {
  barriers = p.barriers + 1;
  pending_flush = some (next_barrier p target);
  queue = record p.queue { items = p.queue.items ++ barrier (next_barrier p target) ∷ [] };
}

module _ (c : Codec) (sink : List ReadyPack → ReadyPack → Bool)
    (callback : Option (PipelineEvent → Bool)) (clock_ns : ℕ → ℕ) where
  enters_wait :
      (p : Pipeline) (target : ℕ)
      → p.error ≡ none
      → p.pending_flush ≡ none
      → p.queue.is_closed ≡ false
      → moves c sink callback clock_ns
          (p, asks target)
          (flushes false ∷ flushes false ∷ flushes false ∷ flushes false ∷ [])
        ≡ (waited p target, awaits (next_barrier p target))
  unfolding moves move flush_step Queue.put_barrier
  enters_wait p target fine alone open_queue = simp (fine, alone, open_queue)

  moves-append :
      (x : Pipeline × Waiter) (ms ns : List Move)
      → moves c sink callback clock_ns x (ms ++ ns)
        ≡ moves c sink callback clock_ns (moves c sink callback clock_ns x ms) ns
  unfolding moves
  moves-append x [] ns = refl
  moves-append x (m ∷ ms) ns = moves-append (move c sink callback clock_ns x m) ms ns

  -- The worker sees a closed queue without captures: it fails, or ends and completes no barrier.
  handle_none-ends :
      (p : Pipeline)
      → p.queue.is_closed ≡ true
      → p.queue.records ≡ 0
      → (is_some (handle_none c sink callback clock_ns p).error ≡ true)
        ⊎ (((handle_none c sink callback clock_ns p).phase ≡ ended)
            × ((handle_none c sink callback clock_ns p).completed ≡ p.completed))
  unfolding handle_none
  handle_none-ends p shut empty = rw (ap₂ (λ b n. b && n == 0) shut empty) (
      persist_answer-ends c sink callback clock_ns ended p (Assembler.flush c p.assembler shutdown))

  -- A worker that has ended, and a barrier that it did not complete.
  abbrev IsStuck : FlushBarrier → Pipeline → Type 0
  IsStuck b p = (p.phase ≡ ended) × (completion b.token p.completed ≡ none)

  ended-IsStuck :
      (b : FlushBarrier) (p : Pipeline) (ph : Phase) (entered now : ℕ)
      → ph ≡ ended
      → IsStuck b p
      → IsStuck b (work_in c sink callback clock_ns ph p entered now)
  unfolding work_in
  ended-IsStuck b p ph entered now e s = rw e s

  begun-IsStuck :
      (b : FlushBarrier) (p : Pipeline) (r : CaptureRecord)
      → IsStuck b p
      → IsStuck b (submit_begin clock_ns p r).0
  unfolding submit_begin
  begun-IsStuck b p r s =
      let P : Pipeline × Entry → Type 0 = λ x. IsStuck b x.0 in
      if_intro P (not p.started) s (
        if_intro P (is_some p.error) s
          (if_intro P (ltb p.config.max_pack_bytes (length r.payload)) s s))

  step-IsStuck :
      (b : FlushBarrier) (p : Pipeline) (call : Call)
      → IsStuck b p
      → IsStuck b (step c sink callback clock_ns p call)
  unfolding step work submit_put submit_end
  step-IsStuck b p (begins r) s = begun-IsStuck b p r s
  step-IsStuck b p (puts r entered now) s = s
  step-IsStuck b p (ends r before result) s = s
  step-IsStuck b p (puts_barrier other) s = s
  step-IsStuck b p closes s = s
  step-IsStuck b p (works entered now) s =
      if_intro (IsStuck b) p.started (ended-IsStuck b p p.phase entered now s.0 s) s

  moves-IsStuck :
      (b : FlushBarrier) (p : Pipeline) (ms : List Move)
      → IsStuck b p
      → all_patient ms ≡ true
      → (moves c sink callback clock_ns (p, awaits b) ms).1 ≡ awaits b
  unfolding moves move all_patient flush_step after_wait
  moves-IsStuck b p [] s h = refl
  moves-IsStuck b p (flushes true ∷ ms) s h = cc
  moves-IsStuck b p (flushes false ∷ ms) s h =
      ap (λ x. (moves c sink callback clock_ns x ms).1) (ap (after_wait p b false) s.1)
      ∙ moves-IsStuck b p ms s h
  moves-IsStuck b p (calls target ∷ ms) s h = moves-IsStuck b p ms s h
  moves-IsStuck b p (acts call ∷ ms) s h =
      moves-IsStuck b (step c sink callback clock_ns p call) ms (step-IsStuck b p call s) h

  works_on :
      (token : ℕ) (q : Pipeline) (i j : ℕ)
      → q.started ≡ true
      → q.phase ≡ after_none
      → q.queue.is_closed ≡ true
      → q.queue.records ≡ 0
      → completion token q.completed ≡ none
      → (is_some (work c sink callback clock_ns q i j).error ≡ true)
        ⊎ (((work c sink callback clock_ns q i j).phase ≡ ended)
            × (completion token (work c sink callback clock_ns q i j).completed ≡ none))
  unfolding work_in
  works_on token q i j on at shut empty fresh_token =
      rw (work_started c sink callback clock_ns q after_none i j on at)
        (elim (handle_none-ends q shut empty) [
          | inl bad ↦ inl bad
          | inr (over, same) ↦ inr (over, ap (completion token) same ∙ fresh_token)
        ])

  -- The worker's `get` has answered None while the queue was open, and the queue holds no capture.
  -- A call of `flush` without a deadline puts its barrier and waits; `close` is called; then the
  -- worker looks at the queue. Unless the worker fails, the call waits for ever, whatever is done.
  pub close_abandons_flush :
      (p : Pipeline) (target i j : ℕ) (ms : List Move)
      → p.started ≡ true
      → p.phase ≡ after_none
      → p.error ≡ none
      → p.pending_flush ≡ none
      → p.queue.is_closed ≡ false
      → p.queue.records ≡ 0
      → completion p.barriers p.completed ≡ none
      → all_patient ms ≡ true
      → (is_some
            (work c sink callback clock_ns
              (step c sink callback clock_ns (waited p target) closes)
              i
              j).error
          ≡ true)
        ⊎ ((moves c sink callback clock_ns
              (p, asks target)
              (flushes false
                ∷ flushes false
                ∷ flushes false
                ∷ flushes false
                ∷ acts closes
                ∷ acts (works i j)
                ∷ ms)).1
            ≡ awaits (next_barrier p target))
  unfolding step moves move Queue.close
  close_abandons_flush p target i j ms on at fine alone open_queue empty fresh_token patient =
      let q = step c sink callback clock_ns (waited p target) closes in
      elim (works_on p.barriers q i j on at refl empty fresh_token) [
        | inl bad ↦ inl bad
        | inr stuck ↦ inr (
            ap (λ x. x.1)
              (moves-append (p, asks target)
                (flushes false ∷ flushes false ∷ flushes false ∷ flushes false ∷ [])
                (acts closes ∷ acts (works i j) ∷ ms))
            ∙ ap (λ x. (moves c sink callback clock_ns x (acts closes ∷ acts (works i j) ∷ ms)).1)
                (enters_wait p target fine alone open_queue)
            ∙ moves-IsStuck (next_barrier p target) (work c sink callback clock_ns q i j) ms stuck
                patient)
      ]
