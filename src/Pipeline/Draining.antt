-- ===== src/Pipeline/Draining.antt =====
-- A worker of a closed pipeline comes to its end.
use dmi.Base.{
  ℕ, ◌+◌, ◌*◌, ◌≡◌, ◌≤◌, inl, inr, refl, sym, ap, ◌∙◌, Bool, true, false, ◌&&◌, ◌==◌, Option, none,
  some, List, [], ◌∷◌, arith, if_cases, if◌then◌else◌, length, total, subst,
}
use dmi.Queue.{
  Queue, FlushBarrier, Item, capture, barrier, Outcome, Timeout, never, after, is_invalid, is_past,
  get, get_body, close,
}
use dmi.Queue
use dmi.Queue.Invariant.{IsAccounted, item_records}
use dmi.Queue.Captures.{get-IsAccounted, close-IsAccounted}
use dmi.Pack.Writer.{Codec}
use dmi.Assembler.{
  Assembler, ReadyPack, Answer, oversized, duplicate, writer_failed, manual, shutdown, returns,
  raises,
}
use dmi.Assembler
use dmi.Pipeline.{
  Pipeline, PipelineEvent, Phase, at_get, after_none, holding, latched, closing, ended, complete,
  complete_pending, pipeline_failed,
}
use dmi.Pipeline.Worker.{handle_none, got, work_in, work, wait_for}
use dmi.Pipeline.Persisting.{emit_lem}
use dmi.Pipeline.Waiting.{work_started}
use dmi.Pipeline.Following.{Follows, persist_answer-Follows, handle-Follows}

-- The steps that are left, at most: two for each item, and those of the end or of a failure.
abbrev steps_left : Phase → Queue → ℕ
steps_left at_get q = 4 + 2 * length q.items
steps_left (holding item) q = 5 + 2 * length q.items
steps_left after_none q = if q.records == 0 then 3 else 5 + 2 * length q.items
steps_left (latched pending) q = 2
steps_left (closing pending) q = 1
steps_left ended q = 0

no_steps : (ph : Phase) (q : Queue) → steps_left ph q ≡ 0 → ph ≡ ended
no_steps at_get q h = absurd (omega (arith, h))
no_steps (holding item) q h = absurd (omega (arith, h))
no_steps after_none q h = absurd (ground arith)
no_steps (latched pending) q h = absurd (omega (arith, h))
no_steps (closing pending) q h = absurd (omega (arith, h))
no_steps ended q h = refl

two_left : (q : Queue) (n : ℕ) → steps_left after_none q ≤ n + 1 → 2 ≤ n
two_left q n h = ground arith

more_left :
    (q : Queue) (n : ℕ)
    → q.is_closed ≡ true
    → (q.is_closed && q.records == 0) ≡ false
    → steps_left after_none q ≤ n + 1
    → steps_left at_get q ≤ n
more_left q n shut more h = ground arith

-- A closed queue whose counters are right.
record IsClosing (q : Queue) : Type 0 where
  shut : q.is_closed ≡ true
  accounted : IsAccounted q

waits_validly : (o : Option ℕ) → is_invalid (wait_for o) ≡ false
waits_validly none = refl
waits_validly (some span) = refl

-- `get` of a closed queue hands out the first item, or None where there is none.
abbrev Gets : Queue → Queue × Outcome (Option Item) → Type 0
Gets q (q', Outcome.returns none) = (q' ≡ q) × (q.items ≡ [])
Gets q (q', Outcome.returns (some item)) =
    (length q'.items + 1 ≡ length q.items) × (q'.is_closed ≡ q.is_closed)
Gets q (q', _) = ⊥

get_body-Gets :
    (q : Queue) (items : List Item) (timeout : Timeout) (entered now : ℕ)
    → q.items ≡ items
    → q.is_closed ≡ true
    → Gets q (get_body q items timeout entered now)
unfolding get_body
get_body-Gets q [] timeout entered now e shut =
    if_cases (Gets q) q.is_closed (λ h. (refl, e)) λ open_yet. absurd (ground arith)
get_body-Gets q (capture r ∷ rest) timeout entered now e shut = (omega (arith, ap length e), refl)
get_body-Gets q (barrier b ∷ rest) timeout entered now e shut = (omega (arith, ap length e), refl)

get-Gets :
    (q : Queue) (timeout : Timeout) (entered now : ℕ)
    → is_invalid timeout ≡ false
    → q.is_closed ≡ true
    → Gets q (get q timeout entered now)
unfolding get
get-Gets q timeout entered now valid shut =
    if_cases (Gets q) (is_invalid timeout) (λ bad. cc)
      λ fine. get_body-Gets q q.items timeout entered now refl shut

module _ (c : Codec) (sink : List ReadyPack → ReadyPack → Bool)
    (callback : Option (PipelineEvent → Bool)) (clock_ns : ℕ → ℕ) where
  -- The worker's steps, one after the other.
  unfoldable pub work_all : Pipeline → List (ℕ × ℕ) → Pipeline
  work_all p [] = p
  work_all p ((entered, now) ∷ times) = work_all (work c sink callback clock_ns p entered now) times

  -- A step that follows takes at least one off.
  Follows-fewer :
      (next : Phase) (p q : Pipeline) (n : ℕ)
      → Follows next p q
      → steps_left next p.queue ≤ n
      → 2 ≤ n
      → steps_left q.phase q.queue ≤ n
  Follows-fewer next p q n f few two = elim f.phase [
    | inl e ↦
        subst (λ ph. steps_left ph q.queue ≤ n) (sym e)
          (subst (λ k. steps_left next k ≤ n) (sym f.queue) few)
    | inr (o, e) ↦ subst (λ ph. steps_left ph q.queue ≤ n) (sym e) two
  ]

  record Drains (n : ℕ) (q : Pipeline) : Type 0 where
    on : q.started ≡ true
    closed_queue : IsClosing q.queue
    fewer : steps_left q.phase q.queue ≤ n

  Follows-Drains :
      (next : Phase) (p q : Pipeline) (n : ℕ)
      → p.started ≡ true
      → IsClosing p.queue
      → Follows next p q
      → steps_left next p.queue ≤ n
      → 2 ≤ n
      → Drains n q
  Follows-Drains next p q n on k f few two = record {
    on = f.started ∙ on;
    closed_queue = subst IsClosing (sym f.queue) k;
    fewer = Follows-fewer next p q n f few two;
  }

  empty_left :
      (p : Pipeline) (q : Queue)
      → IsAccounted q
      → q ≡ p.queue
      → p.queue.items ≡ []
      → steps_left after_none q ≤ 3 + 2 * length p.queue.items
  empty_left p q v same empty =
      let none_left : q.records ≡ 0 =
        v.records_exact ∙ ap (total item_records) (ap (λ (k : Queue). k.items) same ∙ empty) in
      ground arith

  got-Drains :
      (p : Pipeline) (x : Queue × Outcome (Option Item))
      → p.started ≡ true
      → IsClosing p.queue
      → IsAccounted x.0
      → Gets p.queue x
      → Drains (3 + 2 * length p.queue.items) (got c sink callback clock_ns p x)
  unfolding got
  got-Drains p (q, Outcome.returns none) on k v (same, empty) = record {
    on = on;
    closed_queue = subst IsClosing (sym same) k;
    fewer = empty_left p q v same empty;
  }
  got-Drains p (q, Outcome.returns (some item)) on k v (shorter, same) = record {
    on = on;
    closed_queue = record { shut = same ∙ k.shut; accounted = v };
    fewer = omega (arith, shorter);
  }
  got-Drains p (q, Outcome.blocks) on k v g = absurd g
  got-Drains p (q, Outcome.value_error) on k v g = absurd g

  none-Drains :
      (p : Pipeline) (n : ℕ)
      → p.started ≡ true
      → IsClosing p.queue
      → steps_left after_none p.queue ≤ n + 1
      → Drains n (handle_none c sink callback clock_ns p)
  unfolding handle_none
  none-Drains p n on k few =
      if_cases (Drains n) (p.queue.is_closed && p.queue.records == 0)
        (λ over.
          Follows-Drains ended p _ n on k
            (persist_answer-Follows c sink callback clock_ns ended p
              (Assembler.flush c p.assembler shutdown))
            (omega arith) (two_left p.queue n few))
        λ more.
          let q = record p { readings = p.readings + 1 } in
          Follows-Drains at_get q _ n on k
            (persist_answer-Follows c sink callback clock_ns at_get q
              (Assembler.flush_expired c p.assembler (clock_ns p.readings)))
            (more_left p.queue n k.shut more few) (two_left p.queue n few)

  complete_pending-same :
      (o : Option FlushBarrier) (p : Pipeline)
      → ((complete_pending o p).queue ≡ p.queue)
        × ((complete_pending o p).started ≡ p.started)
        × ((complete_pending o p).phase ≡ p.phase)
  unfolding complete_pending complete
  complete_pending-same o p = (ground arith, ground arith, ground arith)

  weaker-Drains : (m n : ℕ) (p : Pipeline) → Drains m p → m ≤ n → Drains n p
  weaker-Drains m n p d h = record {
    on = d.on;
    closed_queue = d.closed_queue;
    fewer = omega (arith, d.fewer, h);
  }

  work_in-Drains :
      (p : Pipeline) (ph : Phase) (n entered now : ℕ)
      → p.phase ≡ ph
      → p.started ≡ true
      → IsClosing p.queue
      → steps_left ph p.queue ≤ n + 1
      → Drains n (work_in c sink callback clock_ns ph p entered now)
  unfolding work_in Queue.close
  work_in-Drains p at_get n entered now e on k few =
      let timeout = wait_for (Assembler.until_expiry c p.assembler (clock_ns p.readings)) in
      weaker-Drains _ n _
        (got-Drains p (get p.queue timeout entered now) on k
          (get-IsAccounted p.queue timeout entered now k.accounted)
          (get-Gets p.queue timeout entered now (waits_validly _) k.shut))
        (omega (arith, few))
  work_in-Drains p after_none n entered now e on k few = none-Drains p n on k few
  work_in-Drains p (holding item) n entered now e on k few =
      Follows-Drains at_get p _ n on k (handle-Follows c sink callback clock_ns p item)
        (omega (arith, few)) (omega (arith, few))
  work_in-Drains p (latched o) n entered now e on k few = record {
    on = on;
    closed_queue = record { shut = refl; accounted = close-IsAccounted p.queue k.accounted };
    fewer = omega (arith, few);
  }
  work_in-Drains p (closing o) n entered now e on k few =
      let q = complete_pending o (record p { phase = ended }) in
      let (same_queue, same_start, over) = complete_pending-same o (record p { phase = ended }) in
      let (m, same) = emit_lem c sink callback clock_ns pipeline_failed q in
      rw same (record {
        on = same_start ∙ on;
        closed_queue = subst IsClosing (sym same_queue) k;
        fewer = subst (λ ph. steps_left ph q.queue ≤ n) (sym over) (omega arith);
      })
  work_in-Drains p ended n entered now e on k few = record {
    on = on;
    closed_queue = k;
    fewer = subst (λ ph. steps_left ph p.queue ≤ n) (sym e) (omega arith);
  }

  work-Drains :
      (p : Pipeline) (n entered now : ℕ)
      → Drains (n + 1) p
      → Drains n (work c sink callback clock_ns p entered now)
  work-Drains p n entered now d =
      subst (Drains n) (sym (work_started c sink callback clock_ns p p.phase entered now d.on refl))
        (work_in-Drains p p.phase n entered now refl d.on d.closed_queue d.fewer)

  work_all-Drains :
      (p : Pipeline) (times : List (ℕ × ℕ)) (n : ℕ)
      → Drains (length times + n) p
      → Drains n (work_all p times)
  unfolding work_all
  work_all-Drains p [] n d = weaker-Drains _ n p d (omega arith)
  work_all-Drains p ((entered, now) ∷ times) n d =
      work_all-Drains (work c sink callback clock_ns p entered now) times n
        (work-Drains p (length times + n) entered now (weaker-Drains _ _ p d (omega arith)))

  steps_bounded : (ph : Phase) (q : Queue) → steps_left ph q ≤ 5 + 2 * length q.items
  steps_bounded at_get q = omega arith
  steps_bounded (holding item) q = omega arith
  steps_bounded after_none q = ground arith
  steps_bounded (latched pending) q = omega arith
  steps_bounded (closing pending) q = omega arith
  steps_bounded ended q = omega arith

  -- A started pipeline whose queue is closed, with the counters of the queue right: whatever the
  -- sink, the clock and the callback do, the worker has ended after two steps for each item that is
  -- queued, and five more.
  pub closed_worker_ends :
      (p : Pipeline) (times : List (ℕ × ℕ))
      → p.started ≡ true
      → p.queue.is_closed ≡ true
      → IsAccounted p.queue
      → 5 + 2 * length p.queue.items ≤ length times
      → (work_all p times).phase ≡ ended
  closed_worker_ends p times on shut v enough =
      let q = work_all p times in
      let d = work_all-Drains p times 0 (record {
        on = on;
        closed_queue = record { shut = shut; accounted = v };
        fewer = omega (arith, steps_bounded p.phase p.queue, enough);
      }) in
      no_steps q.phase q.queue (omega (arith, d.fewer))
