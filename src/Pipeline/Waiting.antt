-- ===== src/Pipeline/Waiting.antt =====
-- A call of `flush` and a worker that has failed.
use dmi.Base.{
  ℕ, ◌≡◌, ◌⊎◌, inl, inr, refl, sym, ap, ◌∙◌, Bool, true, false, Option, none, some, List, [], ◌∷◌,
  is_some, Bool-cases, String, subst, if_intro, if◌then◌else◌, ltb, length, not,
}
use dmi.Model.{CaptureRecord}
use dmi.Queue.{Queue, FlushBarrier}
use dmi.Queue
use dmi.Assembler.{Assembler, ReadyPack}
use dmi.Pack.Writer.{Codec}
use dmi.Pipeline.{
  Pipeline, PipelineEvent, PipelineConfig, Phase, at_get, after_none, holding, latched, closing,
  ended, completion, fresh, new_with, new, start,
}
use dmi.Pipeline.Worker.{work_in, work}
use dmi.Pipeline.Clients.{
  Waiter, asks, joins, publishes, enqueues, refused, rechecks, awaits, flushed, failed, submit_put,
  submit_begin, submit_end, Entry,
}
use dmi.Pipeline.Runs.{Call, begins, puts, ends, puts_barrier, closes, works, step}
use dmi.Pipeline.Failing.{is_latched, Grows, work_in-Proceeds, closing_lem, closing_completes}
use dmi.Pipeline.Flushing.{Move, flushes, calls, acts, next_call, move, moves}
use dmi.Pipeline.Flushes.{
  Answers, IsWatched, WaiterIn, IsGuarded, flush_step-IsGuarded, WaiterIn-map, Proceeds-IsGuarded,
}

module _ (c : Codec) (sink : List ReadyPack → ReadyPack → Bool)
    (callback : Option (PipelineEvent → Bool)) (clock_ns : ℕ → ℕ) where
  -- With a latched error, the worker is past the point at which it read the pending flush.
  has_latched :
      (p : Pipeline) (w : Waiter) (ph : Phase)
      → p.phase ≡ ph
      → is_latched ph ≡ true
      → IsGuarded p w
      → is_some p.error ≡ true
  has_latched p w ph e h g = elim (Bool-cases (is_some p.error)) [
    | inl bad ↦ bad
    | inr fine ↦ cc (g.unlatched fine, ap is_latched e)
  ]

  latched-IsGuarded :
      (p : Pipeline) (w : Waiter) (o : Option FlushBarrier)
      → p.phase ≡ latched o
      → IsGuarded p w
      → IsGuarded (record p { queue = Queue.close p.queue; phase = closing o }) w
  latched-IsGuarded p w o e g =
      let bad = has_latched p w (latched o) e refl g in
      record {
        started = g.started;
        unlatched = λ fine. cc;
        waiter =
            WaiterIn-map c sink callback clock_ns w p
              (record p { queue = Queue.close p.queue; phase = closing o }) refl
              (λ b s. record { pending = s.pending; seen = seen b s.seen }) g.waiter;
      }
    where
      named : Phase → Phase
      named (latched x) = closing x
      named ph = ph

      seen :
          (b : FlushBarrier)
          → (is_some p.error ≡ false) ⊎ Answers b p
          → (is_some p.error ≡ false)
            ⊎ Answers b (record p { queue = Queue.close p.queue; phase = closing o })
      seen b (inl fine) = inl fine
      seen b (inr (inl at)) = inr (inr (inl (ap named (sym e ∙ at))))
      seen b (inr (inr (inl at))) = cc
      seen b (inr (inr (inr done))) = inr (inr (inr done))

  closing-IsGuarded :
      (p : Pipeline) (w : Waiter) (o : Option FlushBarrier) (entered now : ℕ)
      → p.phase ≡ closing o
      → IsGuarded p w
      → IsGuarded (work_in c sink callback clock_ns (closing o) p entered now) w
  closing-IsGuarded p w o entered now e g =
      let (started, pending, error, ph, grows) =
        closing_lem c sink callback clock_ns o p entered now in
      record {
        started = started ∙ g.started;
        unlatched = λ fine. ap is_latched ph;
        waiter =
            WaiterIn-map c sink callback clock_ns w p
              (work_in c sink callback clock_ns (closing o) p entered now) pending
              (λ b s. record { pending = pending ∙ s.pending; seen = seen b error grows s.seen })
              g.waiter;
      }
    where
      named : Phase → Option FlushBarrier
      named (closing x) = x
      named ph = none

      seen :
          (b : FlushBarrier)
          → (work_in c sink callback clock_ns (closing o) p entered now).error ≡ p.error
          → Grows p (work_in c sink callback clock_ns (closing o) p entered now)
          → (is_some p.error ≡ false) ⊎ Answers b p
          → (is_some (work_in c sink callback clock_ns (closing o) p entered now).error ≡ false)
            ⊎ Answers b (work_in c sink callback clock_ns (closing o) p entered now)
      seen b error grows (inl fine) = inl (ap is_some error ∙ fine)
      seen b error grows (inr (inl at)) = cc
      seen b error grows (inr (inr (inl at))) = inr (
          inr (
            inr (
              rw (ap named (sym e ∙ at))
                (closing_completes c sink callback clock_ns p b entered now))))
      seen b error grows (inr (inr (inr done))) = inr (inr (inr (grows b.token done)))

  work_in-IsGuarded :
      (p : Pipeline) (w : Waiter) (ph : Phase) (entered now : ℕ)
      → p.phase ≡ ph
      → IsGuarded p w
      → IsGuarded (work_in c sink callback clock_ns ph p entered now) w
  unfolding work_in
  work_in-IsGuarded p w (latched o) entered now e g = latched-IsGuarded p w o e g
  work_in-IsGuarded p w (closing o) entered now e g = closing-IsGuarded p w o entered now e g
  work_in-IsGuarded p w at_get entered now e g =
      Proceeds-IsGuarded c sink callback clock_ns p _ w (ap is_latched e)
        (work_in-Proceeds c sink callback clock_ns at_get p entered now e refl) g
  work_in-IsGuarded p w after_none entered now e g =
      Proceeds-IsGuarded c sink callback clock_ns p _ w (ap is_latched e)
        (work_in-Proceeds c sink callback clock_ns after_none p entered now e refl) g
  work_in-IsGuarded p w (holding item) entered now e g =
      Proceeds-IsGuarded c sink callback clock_ns p _ w (ap is_latched e)
        (work_in-Proceeds c sink callback clock_ns (holding item) p entered now e refl) g
  work_in-IsGuarded p w ended entered now e g =
      Proceeds-IsGuarded c sink callback clock_ns p _ w (ap is_latched e)
        (work_in-Proceeds c sink callback clock_ns ended p entered now e refl) g

  -- A step that leaves the worker, the error, the barriers and the pending flush alone.
  same-IsGuarded :
      (p q : Pipeline) (w : Waiter)
      → q.started ≡ p.started
      → q.pending_flush ≡ p.pending_flush
      → q.error ≡ p.error
      → q.phase ≡ p.phase
      → q.completed ≡ p.completed
      → IsGuarded p w
      → IsGuarded q w
  same-IsGuarded p q w started pending error phase completed g = record {
    started = started ∙ g.started;
    unlatched = λ fine. ap is_latched phase ∙ g.unlatched (sym (ap is_some error) ∙ fine);
    waiter =
        WaiterIn-map c sink callback clock_ns w p q pending
          (λ b s. record {
            pending = pending ∙ s.pending;
            seen = rw (error, phase, completed) s.seen;
          })
          g.waiter;
  }

  begun-IsGuarded :
      (p : Pipeline) (w : Waiter) (r : CaptureRecord)
      → IsGuarded p w
      → IsGuarded (submit_begin clock_ns p r).0 w
  unfolding submit_begin
  begun-IsGuarded p w r g =
      let P : Pipeline × Entry → Type 0 = λ x. IsGuarded x.0 w in
      let same = λ (q : Pipeline). same-IsGuarded p q w in
      if_intro P (not p.started) g (
        if_intro P (is_some p.error) (same _ refl refl refl refl refl g) (
          if_intro P (ltb p.config.max_pack_bytes (length r.payload))
            (same _ refl refl refl refl refl g) (same _ refl refl refl refl refl g)))

  next_call-IsGuarded :
      (p : Pipeline) (w : Waiter) (target : ℕ) → IsGuarded p w → IsGuarded p (next_call w target)
  next_call-IsGuarded p (flushed done) target g = record {
    started = g.started;
    unlatched = g.unlatched;
    waiter = tt;
  }
  next_call-IsGuarded p failed target g = record {
    started = g.started;
    unlatched = g.unlatched;
    waiter = tt;
  }
  next_call-IsGuarded p (asks t) target g = g
  next_call-IsGuarded p (joins b t) target g = g
  next_call-IsGuarded p (publishes t) target g = g
  next_call-IsGuarded p (enqueues b) target g = g
  next_call-IsGuarded p (refused b) target g = g
  next_call-IsGuarded p (rechecks b) target g = g
  next_call-IsGuarded p (awaits b) target g = g

  pub work_started :
      (p : Pipeline) (ph : Phase) (entered now : ℕ)
      → p.started ≡ true
      → p.phase ≡ ph
      → work c sink callback clock_ns p entered now
        ≡ work_in c sink callback clock_ns ph p entered now
  unfolding work
  work_started p ph entered now on e =
      ap (λ b. if b then work_in c sink callback clock_ns p.phase p entered now else p) on
      ∙ ap (λ x. work_in c sink callback clock_ns x p entered now) e

  step-IsGuarded :
      (p : Pipeline) (w : Waiter) (call : Call)
      → IsGuarded p w
      → IsGuarded (step c sink callback clock_ns p call) w
  unfolding step work submit_put submit_end
  step-IsGuarded p w (begins r) g = begun-IsGuarded p w r g
  step-IsGuarded p w (puts r entered now) g = same-IsGuarded p _ w refl refl refl refl refl g
  step-IsGuarded p w (ends r before result) g = same-IsGuarded p _ w refl refl refl refl refl g
  step-IsGuarded p w (puts_barrier b) g = same-IsGuarded p _ w refl refl refl refl refl g
  step-IsGuarded p w closes g = same-IsGuarded p _ w refl refl refl refl refl g
  step-IsGuarded p w (works entered now) g =
      rw (work_started p p.phase entered now g.started refl)
        (work_in-IsGuarded p w p.phase entered now refl g)

  move-IsGuarded :
      (x : Pipeline × Waiter) (m : Move)
      → IsGuarded x.0 x.1
      → IsGuarded (move c sink callback clock_ns x m).0 (move c sink callback clock_ns x m).1
  unfolding move
  move-IsGuarded (p, w) (flushes late) g = flush_step-IsGuarded c sink callback clock_ns p w late g
  move-IsGuarded (p, w) (calls target) g = next_call-IsGuarded p w target g
  move-IsGuarded (p, w) (acts call) g = step-IsGuarded p w call g

  moves-IsGuarded :
      (x : Pipeline × Waiter) (ms : List Move)
      → IsGuarded x.0 x.1
      → IsGuarded (moves c sink callback clock_ns x ms).0 (moves c sink callback clock_ns x ms).1
  unfolding moves
  moves-IsGuarded x [] g = g
  moves-IsGuarded x (m ∷ ms) g =
      moves-IsGuarded (move c sink callback clock_ns x m) ms (move-IsGuarded x m g)

  work_in-Grows :
      (p : Pipeline) (ph : Phase) (entered now : ℕ)
      → p.phase ≡ ph
      → Grows p (work_in c sink callback clock_ns ph p entered now)
  unfolding work_in
  work_in-Grows p (latched o) entered now e = λ token h. h
  work_in-Grows p (closing o) entered now e =
      (closing_lem c sink callback clock_ns o p entered now).4
  work_in-Grows p at_get entered now e =
      (work_in-Proceeds c sink callback clock_ns at_get p entered now e refl).grows
  work_in-Grows p after_none entered now e =
      (work_in-Proceeds c sink callback clock_ns after_none p entered now e refl).grows
  work_in-Grows p (holding item) entered now e =
      (work_in-Proceeds c sink callback clock_ns (holding item) p entered now e refl).grows
  work_in-Grows p ended entered now e = λ token h. h

  work-Grows :
      (p : Pipeline) (entered now : ℕ) → Grows p (work c sink callback clock_ns p entered now)
  unfolding work
  work-Grows p entered now =
      if_intro (λ q. Grows p q) p.started (work_in-Grows p p.phase entered now refl) λ token h. h

  -- The worker's next step, where it is known.
  closing_works :
      (p : Pipeline) (b : FlushBarrier) (entered now : ℕ)
      → p.started ≡ true
      → p.phase ≡ closing (some b)
      → is_some (completion b.token (work c sink callback clock_ns p entered now).completed) ≡ true
  closing_works p b entered now on e =
      rw (work_started p (closing (some b)) entered now on e)
        (closing_completes c sink callback clock_ns p b entered now)

  latched_works :
      (p : Pipeline) (b : FlushBarrier) (entered now : ℕ)
      → p.started ≡ true
      → p.phase ≡ latched (some b)
      → ((work c sink callback clock_ns p entered now).started ≡ true)
        × ((work c sink callback clock_ns p entered now).phase ≡ closing (some b))
  unfolding work_in
  latched_works p b entered now on e =
      rw (work_started p (latched (some b)) entered now on e) (on, refl)

  answered :
      (p : Pipeline) (b : FlushBarrier) (i j k l : ℕ)
      → p.started ≡ true
      → is_some p.error ≡ true
      → IsWatched b p
      → is_some (
          completion b.token
            (work c sink callback clock_ns (work c sink callback clock_ns p i j) k l).completed)
        ≡ true
  answered p b i j k l on bad s = elim s.seen [
    | inl fine ↦ cc
    | inr (inl at) ↦
        let (on', at') = latched_works p b i j on at in
        closing_works (work c sink callback clock_ns p i j) b k l on' at'
    | inr (inr (inl at)) ↦
        work-Grows (work c sink callback clock_ns p i j) k l b.token (closing_works p b i j on at)
    | inr (inr (inr done)) ↦
        work-Grows (work c sink callback clock_ns p i j) k l b.token (work-Grows p i j b.token done)
  ]

  watched :
      (p : Pipeline) (w : Waiter) (b : FlushBarrier)
      → WaiterIn w p
      → (w ≡ awaits b) ⊎ ((target : ℕ) × (w ≡ joins b target))
      → IsWatched b p
  watched p w b h (inl e) = subst (λ v. WaiterIn v p) e h
  watched p w b h (inr (target, e)) = subst (λ v. WaiterIn v p) e h

  start-IsGuarded :
      (g : PipelineConfig) (oq : Option Queue) (oa : Option Assembler) (p : Pipeline)
      → new_with g oq oa ≡ some p
      → IsGuarded (start p).0 (flushed true)
  unfolding new_with start
  start-IsGuarded g none oa p e = cc
  start-IsGuarded g (some q) none p e = cc
  start-IsGuarded g (some q) (some a) p e =
      let made : fresh g q a ≡ p = cc in
      rw (← made) (record { started = refl; unlatched = λ fine. refl; waiter = tt })

  -- A new pipeline is started; calls of `flush`, one at a time and step by step, the worker, and
  -- threads that submit, put barriers and close act in any order. Whenever a call waits for a barrier, its own or one
  -- that an earlier call left pending, while an error is latched, the barrier is completed within two
  -- more steps of the worker.
  pub failed_flush_completes :
      (g : PipelineConfig) (factory : ℕ → String) (p : Pipeline) (ms : List Move) (b : FlushBarrier)
      (i j k l : ℕ)
      → new g factory ≡ some p
      → ((moves c sink callback clock_ns ((start p).0, flushed true) ms).1 ≡ awaits b)
        ⊎ ((target : ℕ) × ((moves c sink callback clock_ns ((start p).0, flushed true) ms).1
              ≡ joins b target))
      → is_some (moves c sink callback clock_ns ((start p).0, flushed true) ms).0.error ≡ true
      → is_some (
          completion b.token
            (work c sink callback clock_ns
              (work c sink callback clock_ns
                (moves c sink callback clock_ns ((start p).0, flushed true) ms).0
                i
                j)
              k
              l).completed)
        ≡ true
  unfolding new
  failed_flush_completes g factory p ms b i j k l made waits bad =
      let x = moves c sink callback clock_ns ((start p).0, flushed true) ms in
      let s = moves-IsGuarded ((start p).0, flushed true) ms (start-IsGuarded g _ _ p made) in
      answered x.0 b i j k l s.started bad (watched x.0 x.1 b s.waiter waits)
