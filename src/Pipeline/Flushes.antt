-- ===== src/Pipeline/Flushes.antt =====
-- What a call of `flush` may rely on while it waits, and what the steps keep of it.
use dmi.Base.{
  ℕ, ◌≡◌, ◌⊎◌, inl, inr, refl, sym, ap, ◌∙◌, Bool, true, false, Option, none, some, List, arith,
  is_some, Bool-cases, leb,
}
use dmi.Queue.{Queue, FlushBarrier}
use dmi.Queue
use dmi.Assembler.{ReadyPack}
use dmi.Pack.Writer.{Codec}
use dmi.Pipeline.{Pipeline, PipelineEvent, latched, closing, completion}
use dmi.Pipeline.Clients.{
  Waiter, asks, joins, publishes, enqueues, refused, rechecks, awaits, flushed, failed, forget,
  after_join, after_wait, flush_step, joined, admitted_or_refused,
}
use dmi.Pipeline.Failing.{is_latched, Proceeds}

-- The worker is on its way to complete the barrier, or has done so.
abbrev pub Answers : FlushBarrier → Pipeline → Type 0
Answers b p =
    (p.phase ≡ latched (some b))
    ⊎ (p.phase ≡ closing (some b))
    ⊎ (is_some (completion b.token p.completed) ≡ true)

-- The barrier is published, and a failure would see it or has seen it.
pub record IsWatched (b : FlushBarrier) (p : Pipeline) : Type 0 where
  pub pending : p.pending_flush ≡ some b
  pub seen : (is_some p.error ≡ false) ⊎ Answers b p

abbrev pub WaiterIn : Waiter → Pipeline → Type 0
WaiterIn (joins b target) p = IsWatched b p
WaiterIn (awaits b) p = IsWatched b p
WaiterIn (enqueues b) p = p.pending_flush ≡ some b
WaiterIn (refused b) p = p.pending_flush ≡ some b
WaiterIn (rechecks b) p = p.pending_flush ≡ some b
WaiterIn _ p = Unit

pub record IsGuarded (p : Pipeline) (w : Waiter) : Type 0 where
  pub started : p.started ≡ true
  pub unlatched : is_some p.error ≡ false → is_latched p.phase ≡ false
  pub waiter : WaiterIn w p

module _ (c : Codec) (sink : List ReadyPack → ReadyPack → Bool)
    (callback : Option (PipelineEvent → Bool)) (clock_ns : ℕ → ℕ) where
  forget-fields :
      (b : FlushBarrier) (p : Pipeline)
      → ((forget b p).started ≡ p.started)
        × ((forget b p).error ≡ p.error)
        × ((forget b p).phase ≡ p.phase)
  unfolding forget
  forget-fields b p = (ground arith, ground arith, ground arith)

  other_waiter :
      {p : Pipeline} {w : Waiter} (w' : Waiter) → IsGuarded p w → WaiterIn w' p → IsGuarded p w'
  other_waiter w' g h = record { started = g.started; unlatched = g.unlatched; waiter = h }

  forgotten :
      (b : FlushBarrier) {p : Pipeline} {w : Waiter} (w' : Waiter)
      → IsGuarded p w
      → WaiterIn w' (forget b p)
      → IsGuarded (forget b p) w'
  forgotten b {p} w' g h =
      let (s, e, f) = forget-fields b p in
      record {
        started = s ∙ g.started;
        unlatched = λ none_yet. ap is_latched f ∙ g.unlatched (sym (ap is_some e) ∙ none_yet);
        waiter = h;
      }

  after_join-IsGuarded :
      (p : Pipeline) (b : FlushBarrier) (target : ℕ) (late : Bool) (o : Option Bool)
      → IsGuarded p (joins b target)
      → IsGuarded (after_join p b target late o).0 (after_join p b target late o).1
  unfolding after_join
  after_join-IsGuarded p b target true none g = other_waiter _ g tt
  after_join-IsGuarded p b target false none g = g
  after_join-IsGuarded p b target late (some true) g = other_waiter _ g tt
  after_join-IsGuarded p b target late (some false) g =
      elim (Bool-cases (leb target b.target_admitted)) [
        | inl enough ↦ rw enough (forgotten b _ g tt)
        | inr short ↦ rw short (forgotten b _ g tt)
      ]

  after_wait-IsGuarded :
      (p : Pipeline) (b : FlushBarrier) (late : Bool) (o : Option Bool)
      → IsGuarded p (awaits b)
      → IsGuarded (after_wait p b late o).0 (after_wait p b late o).1
  unfolding after_wait
  after_wait-IsGuarded p b true none g = other_waiter _ g tt
  after_wait-IsGuarded p b false none g = g
  after_wait-IsGuarded p b late (some true) g = other_waiter _ g tt
  after_wait-IsGuarded p b late (some false) g = forgotten b _ g tt

  joined-IsGuarded :
      (p : Pipeline) (target : ℕ) (o : Option FlushBarrier)
      → p.pending_flush ≡ o
      → is_some p.error ≡ false
      → IsGuarded p (asks target)
      → IsGuarded p (joined o target)
  joined-IsGuarded p target none e fine g = other_waiter _ g tt
  joined-IsGuarded p target (some b) e fine g =
      other_waiter _ g (record { pending = e; seen = inl fine })

  enqueued-IsGuarded :
      (p : Pipeline) (b : FlushBarrier) (q : Queue) (result : Queue.AdmissionResult)
      → IsGuarded p (enqueues b)
      → IsGuarded (record p { queue = q }) (admitted_or_refused result b)
  enqueued-IsGuarded p b q Queue.closed g = record {
    started = g.started;
    unlatched = g.unlatched;
    waiter = g.waiter;
  }
  enqueued-IsGuarded p b q _ g = record {
    started = g.started;
    unlatched = g.unlatched;
    waiter = g.waiter;
  }

  pub flush_step-IsGuarded :
      (p : Pipeline) (w : Waiter) (late : Bool)
      → IsGuarded p w
      → IsGuarded (flush_step p w late).0 (flush_step p w late).1
  unfolding flush_step
  flush_step-IsGuarded p (asks target) late g = elim (Bool-cases (is_some p.error)) [
    | inl bad ↦ rw bad (other_waiter _ g tt)
    | inr fine ↦ rw fine (joined-IsGuarded p target p.pending_flush refl fine g)
  ]
  flush_step-IsGuarded p (joins b target) late g =
      after_join-IsGuarded p b target late (completion b.token p.completed) g
  flush_step-IsGuarded p (publishes target) late g = record {
    started = g.started;
    unlatched = g.unlatched;
    waiter = refl;
  }
  flush_step-IsGuarded p (enqueues b) late g =
      enqueued-IsGuarded p b (Queue.put_barrier p.queue b).0 (Queue.put_barrier p.queue b).1 g
  flush_step-IsGuarded p (refused b) late g = elim (Bool-cases (is_some p.error)) [
    | inl bad ↦ rw bad (forgotten b _ g tt)
    | inr fine ↦ rw fine (forgotten b _ g tt)
  ]
  flush_step-IsGuarded p (rechecks b) late g = elim (Bool-cases (is_some p.error)) [
    | inl bad ↦ rw bad (forgotten b _ g tt)
    | inr fine ↦ rw fine (other_waiter _ g (record { pending = g.waiter; seen = inl fine }))
  ]
  flush_step-IsGuarded p (awaits b) late g =
      after_wait-IsGuarded p b late (completion b.token p.completed) g
  flush_step-IsGuarded p (flushed done) late g = g
  flush_step-IsGuarded p failed late g = g

  -- What a step of the worker keeps of a call of `flush`.
  pub WaiterIn-map :
      (w : Waiter) (p q : Pipeline)
      → q.pending_flush ≡ p.pending_flush
      → ((b : FlushBarrier) → IsWatched b p → IsWatched b q)
      → WaiterIn w p
      → WaiterIn w q
  WaiterIn-map (joins b target) p q e f h = f b h
  WaiterIn-map (awaits b) p q e f h = f b h
  WaiterIn-map (enqueues b) p q e f h = e ∙ h
  WaiterIn-map (refused b) p q e f h = e ∙ h
  WaiterIn-map (rechecks b) p q e f h = e ∙ h
  WaiterIn-map (asks target) p q e f h = tt
  WaiterIn-map (publishes target) p q e f h = tt
  WaiterIn-map (flushed done) p q e f h = tt
  WaiterIn-map failed p q e f h = tt

  -- A step of a worker that has latched no error.
  Proceeds-IsWatched :
      (p q : Pipeline) (b : FlushBarrier)
      → is_latched p.phase ≡ false
      → Proceeds p q
      → IsWatched b p
      → IsWatched b q
  Proceeds-IsWatched p q b h g s = record {
    pending = g.pending ∙ s.pending;
    seen = after g.ends s.seen;
  }
    where
      after :
          ((q.error ≡ p.error) × (is_latched q.phase ≡ false))
            ⊎ ((is_some q.error ≡ true) × (q.phase ≡ latched p.pending_flush))
          → (is_some p.error ≡ false) ⊎ Answers b p
          → (is_some q.error ≡ false) ⊎ Answers b q
      after (inr (bad, ph)) x = inr (inl (ph ∙ ap latched s.pending))
      after (inl (same, ph)) (inl fine) = inl (ap is_some same ∙ fine)
      after (inl (same, ph)) (inr (inl at)) = cc (ap is_latched at)
      after (inl (same, ph)) (inr (inr (inl at))) = cc (ap is_latched at)
      after (inl (same, ph)) (inr (inr (inr done))) = inr (inr (inr (g.grows b.token done)))

  pub Proceeds-IsGuarded :
      (p q : Pipeline) (w : Waiter)
      → is_latched p.phase ≡ false
      → Proceeds p q
      → IsGuarded p w
      → IsGuarded q w
  Proceeds-IsGuarded p q w h g s = record {
    started = g.started ∙ s.started;
    unlatched = λ fine. elim g.ends [ inl (same, ph) ↦ ph | inr (bad, ph) ↦ cc ];
    waiter = WaiterIn-map w p q g.pending (λ b. Proceeds-IsWatched p q b h g) s.waiter;
  }
