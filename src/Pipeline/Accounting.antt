-- ===== src/Pipeline/Accounting.antt =====
-- Every capture that the queue admitted is stored, in the open pack, held by the worker or queued, in
-- this order, or dropped and counted.
use dmi.Base.{
  ℕ, suc, ◌+◌, String, ◌≡◌, ◌⊎◌, inl, inr, refl, sym, ap, ◌∙◌, Bool, true, false, Option, none,
  some, List, [], ◌∷◌, ◌++◌, append_assoc, arith, length, subst, Omits, Omits-skip,
}
use dmi.Model.{CaptureRecord}
use dmi.Queue.{Queue, FlushBarrier, Item, capture, barrier, Outcome}
use dmi.Queue.Invariant.{IsAccounted}
use dmi.Queue.Captures.{get-IsAccounted, queued, no_captures, Takes, get-Takes}
use dmi.Pack.Writer.{Codec}
use dmi.Assembler.{ReadyPack}
use dmi.Pipeline.{
  Pipeline, PipelineEvent, queue_error, Phase, at_get, after_none, holding, latched, closing, ended,
  is_failing, latch,
}
use dmi.Pipeline.Worker.{got, work_in}
use dmi.Pipeline.Delivery.{Delivered, Delivered-same, Failed, Goes, drops}
use dmi.Pipeline.Captures.{handle_capture}
use dmi.Pipeline.Barriers.{handle_barrier-Goes}
use dmi.Pipeline.Ending.{handle_none_cases}
use dmi.Pipeline.Runs.{held, TimelyIn}

-- A worker that has ended leaves a closed queue without captures, and no open pack.
pub record IsOver (p : Pipeline) : Type 0 where
  pub phase : p.phase ≡ ended
  pub closed : p.queue.is_closed ≡ true
  pub empty : queued p.queue ≡ []
  pub idle : p.assembler.current ≡ none

-- Without those that the worker dropped, the `admitted` captures are those that it kept, the one that
-- it holds and those that are queued; `refused` others are counted with the dropped ones.
pub record Served (c : Codec) (n : ℕ) (p : Pipeline) (admitted : List CaptureRecord) (refused : ℕ)
    : Type 0 where
  pub kept : List CaptureRecord
  pub left_out : ℕ
  pub delivered : Delivered c n p kept
  pub error : p.error ≡ none
  pub loop : (is_failing p.phase ≡ false) ⊎ IsOver p
  pub order : Omits left_out admitted (kept ++ (held p.phase ++ queued p.queue))
  pub count : drops p ≡ left_out + refused
  pub accounted : IsAccounted p.queue

-- The same after some step, or the pipeline has failed.
abbrev pub Serves : Codec → ℕ → Pipeline → List CaptureRecord → ℕ → Type 0
Serves c n p admitted refused = Failed p ⊎ Served c n p admitted refused

left_loop :
    (p : Pipeline)
    → (is_failing p.phase ≡ false) ⊎ IsOver p
    → is_failing p.phase ≡ true
    → p.phase ≡ ended
left_loop p (inl h) e = cc
left_loop p (inr over) e = over.phase

module _ (c : Codec) (uuid_16 : (id : String) → length (c.uuid_bytes id) ≡ 16)
    (sha_32 : (bytes : List ℕ) → length (c.sha256 bytes) ≡ 32)
    (sink : List ReadyPack → ReadyPack → Bool) (callback : Option (PipelineEvent → Bool))
    (clock_ns : ℕ → ℕ) where
  Goes-Served :
      (n : ℕ) (p q : Pipeline) (next : Phase) (kept : List CaptureRecord) (k left_out : ℕ)
      (admitted : List CaptureRecord) (refused : ℕ)
      → Goes c n p q next kept k
      → p.error ≡ none
      → IsAccounted p.queue
      → Omits left_out admitted (kept ++ (held next ++ queued p.queue))
      → drops p + k ≡ left_out + refused
      → (is_failing next ≡ false) ⊎ IsOver q
      → Served c n q admitted refused
  Goes-Served n p q next kept k left_out admitted refused g e v order count loop = record {
    kept = kept;
    left_out = left_out;
    delivered = g.delivered;
    error = g.error ∙ e;
    loop = looped loop;
    order = rw (g.queue, g.phase) order;
    count = g.drop_count ∙ count;
    accounted = subst IsAccounted (sym g.queue) v;
  }
    where
      looped : (is_failing next ≡ false) ⊎ IsOver q → (is_failing q.phase ≡ false) ⊎ IsOver q
      looped (inl h) = inl (ap is_failing g.phase ∙ h)
      looped (inr h) = inr h

  -- The captures after the kept ones, with the worker at `ph`.
  seen_at :
      (n : ℕ) (p : Pipeline) (ph : Phase) (admitted : List CaptureRecord) (refused : ℕ)
      (s : Served c n p admitted refused)
      → p.phase ≡ ph
      → Omits s.left_out admitted (s.kept ++ (held ph ++ queued p.queue))
  seen_at n p ph admitted refused s e =
      subst (λ x. Omits s.left_out admitted (s.kept ++ (held x ++ queued p.queue))) e s.order

  got-Serves :
      (n : ℕ) (admitted : List CaptureRecord) (refused : ℕ) (p : Pipeline) (q : Queue)
      (o : Outcome (Option Item))
      → Served c n p admitted refused
      → p.phase ≡ at_get
      → IsAccounted q
      → Takes p.queue (q, o)
      → Serves c n (got c sink callback clock_ns p (q, o)) admitted refused
  unfolding got latch
  got-Serves n admitted refused p q (Outcome.returns none) s e v t = inr (record {
    kept = s.kept;
    left_out = s.left_out;
    delivered = Delivered-same c n p _ s.kept s.delivered refl refl refl;
    error = s.error;
    loop = inl refl;
    order = rw t (seen_at n p at_get admitted refused s e);
    count = s.count;
    accounted = v;
  })
  got-Serves n admitted refused p q (Outcome.returns (some item)) s e v t = inr (record {
    kept = s.kept;
    left_out = s.left_out;
    delivered = Delivered-same c n p _ s.kept s.delivered refl refl refl;
    error = s.error;
    loop = inl refl;
    order = rw (← t) (seen_at n p at_get admitted refused s e);
    count = s.count;
    accounted = v;
  })
  got-Serves n admitted refused p q Outcome.blocks s e v t = inr s
  got-Serves n admitted refused p q Outcome.value_error s e v t = inl (queue_error, refl, refl)

  handled-Serves :
      (n : ℕ) (admitted : List CaptureRecord) (refused : ℕ) (p q : Pipeline) (r : CaptureRecord)
      (s : Served c n p admitted refused)
      → p.phase ≡ holding (capture r)
      → Failed q ⊎ Goes c n p q at_get (s.kept ++ r ∷ []) 0 ⊎ Goes c n p q at_get s.kept 1
      → Serves c n q admitted refused
  handled-Serves n admitted refused p q r s e (inl f) = inl f
  handled-Serves n admitted refused p q r s e (inr (inl g)) = inr (
      Goes-Served n p q at_get (s.kept ++ r ∷ []) 0 s.left_out admitted refused g s.error
        s.accounted
        (rw (append_assoc s.kept (r ∷ []) (queued p.queue))
          (seen_at n p (holding (capture r)) admitted refused s e))
        (omega (arith, s.count)) (inl refl))
  handled-Serves n admitted refused p q r s e (inr (inr g)) = inr (
      Goes-Served n p q at_get s.kept 1 (suc s.left_out) admitted refused g s.error s.accounted
        (Omits-skip s.left_out admitted s.kept r (queued p.queue)
          (seen_at n p (holding (capture r)) admitted refused s e))
        (omega (arith, s.count)) (inl refl))

  -- A step of the worker at `ph` that keeps what was kept and takes no capture.
  steady-Serves :
      (n : ℕ) (admitted : List CaptureRecord) (refused : ℕ) (p q : Pipeline) (ph next : Phase)
      (s : Served c n p admitted refused)
      → p.phase ≡ ph
      → held ph ≡ held next
      → Goes c n p q next s.kept 0
      → (is_failing next ≡ false) ⊎ IsOver q
      → Serves c n q admitted refused
  steady-Serves n admitted refused p q ph next s e same g loop = inr (
      Goes-Served n p q next s.kept 0 s.left_out admitted refused g s.error s.accounted
        (subst (λ l. Omits s.left_out admitted (s.kept ++ (l ++ queued p.queue))) same
          (seen_at n p ph admitted refused s e))
        (omega (arith, s.count)) loop)

  barrier-Serves :
      (n : ℕ) (admitted : List CaptureRecord) (refused : ℕ) (p q : Pipeline) (b : FlushBarrier)
      (s : Served c n p admitted refused)
      → p.phase ≡ holding (barrier b)
      → Failed q ⊎ Goes c n p q at_get s.kept 0
      → Serves c n q admitted refused
  barrier-Serves n admitted refused p q b s e (inl f) = inl f
  barrier-Serves n admitted refused p q b s e (inr g) =
      steady-Serves n admitted refused p q (holding (barrier b)) at_get s e refl g (inl refl)

  none-Serves :
      (n : ℕ) (admitted : List CaptureRecord) (refused : ℕ) (p q : Pipeline)
      (s : Served c n p admitted refused)
      → p.phase ≡ after_none
      → Failed q
        ⊎ (Goes c n p q ended s.kept 0
            × (p.queue.is_closed ≡ true)
            × (p.queue.records ≡ 0)
            × (q.assembler.current ≡ none))
        ⊎ Goes c n p q at_get s.kept 0
      → Serves c n q admitted refused
  none-Serves n admitted refused p q s e (inl f) = inl f
  none-Serves n admitted refused p q s e (inr (inl (g, shut, empty, idle))) =
      steady-Serves n admitted refused p q after_none ended s e refl g (
        inr (record {
          phase = g.phase;
          closed = ap (λ (x : Queue). x.is_closed) g.queue ∙ shut;
          empty =
              ap queued g.queue
              ∙ no_captures p.queue.items (omega (arith, s.accounted.records_exact, empty));
          idle = idle;
        }))
  none-Serves n admitted refused p q s e (inr (inr g)) =
      steady-Serves n admitted refused p q after_none at_get s e refl g (inl refl)

  pub work_in-Serves :
      (n : ℕ) (admitted : List CaptureRecord) (refused : ℕ) (ph : Phase) (p : Pipeline)
      (entered now : ℕ) (s : Served c n p admitted refused)
      → p.phase ≡ ph
      → TimelyIn c sink callback clock_ns ph p
      → Serves c n (work_in c sink callback clock_ns ph p entered now) admitted refused
  unfolding work_in
  work_in-Serves n admitted refused at_get p entered now s e t =
      got-Serves n admitted refused p _ _ s e (get-IsAccounted p.queue _ entered now s.accounted)
        (get-Takes p.queue _ entered now)
  work_in-Serves n admitted refused after_none p entered now s e t =
      none-Serves n admitted refused p _ s e
        (handle_none_cases c uuid_16 sha_32 sink callback clock_ns n p s.kept s.delivered)
  work_in-Serves n admitted refused (holding (capture r)) p entered now s e t =
      handled-Serves n admitted refused p _ r s e
        (handle_capture c uuid_16 sha_32 sink callback clock_ns n p r s.kept s.delivered t)
  work_in-Serves n admitted refused (holding (barrier b)) p entered now s e t =
      barrier-Serves n admitted refused p _ b s e (
        handle_barrier-Goes c uuid_16 sha_32 sink callback clock_ns n p b s.kept s.delivered
          s.error)
  work_in-Serves n admitted refused (latched pending) p entered now s e t =
      cc (left_loop p s.loop (ap is_failing e))
  work_in-Serves n admitted refused (closing pending) p entered now s e t =
      cc (left_loop p s.loop (ap is_failing e))
  work_in-Serves n admitted refused ended p entered now s e t = inr s
