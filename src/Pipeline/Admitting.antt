-- ===== src/Pipeline/Admitting.antt =====
-- What the steps of other threads than the worker leave alone, and what they add to the queue and to
-- the counters that the worker shares with `submit`.
use dmi.Base.{
  ℕ, ◌+◌, ◌≡◌, refl, ◌∙◌, true, not, List, [], ◌++◌, append-nil, arith, if_intro, is_some, length,
  ltb, sym,
}
use dmi.Model.{CaptureRecord}
use dmi.Queue.{
  Queue, AdmissionResult, accepted, dropped, timed_out, too_large, closed, FlushBarrier,
  put_barrier,
}
use dmi.Queue
use dmi.Queue.Invariant.{IsAccounted}
use dmi.Queue.Captures.{
  queued, put-queued, put_barrier-queued, put-closed, put_barrier-closed, put-IsAccounted,
  put_barrier-IsAccounted, close-IsAccounted, accepted_captures,
}
use dmi.Pipeline.{Pipeline}
use dmi.Pipeline.Clients.{Entry, submit_begin, submit_put, submit_end, count_admission}
use dmi.Pipeline.Delivery.{drops}
use dmi.Pipeline.Runs.{entry_refusal, refusal}

-- From `p` to `q` the queue takes the captures `new`, and `refused` records are counted as too large.
pub record Adds (p q : Pipeline) (new : List CaptureRecord) (refused : ℕ) : Type 0 where
  pub assembler : q.assembler ≡ p.assembler
  pub stored : q.stored ≡ p.stored
  pub records : q.counters.persisted_records ≡ p.counters.persisted_records
  pub packs : q.counters.packs_persisted ≡ p.counters.packs_persisted
  pub error : q.error ≡ p.error
  pub phase : q.phase ≡ p.phase
  pub dropped : drops q ≡ drops p + refused
  pub accounted : IsAccounted p.queue → IsAccounted q.queue
  pub captures : queued q.queue ≡ queued p.queue ++ new
  pub shut : p.queue.is_closed ≡ true → (q.queue.is_closed ≡ true) × (new ≡ [])

-- Where only the queue changes.
queue-Adds :
    (p : Pipeline) (q : Queue) (new : List CaptureRecord)
    → (IsAccounted p.queue → IsAccounted q)
    → queued q ≡ queued p.queue ++ new
    → (p.queue.is_closed ≡ true → (q.is_closed ≡ true) × (new ≡ []))
    → Adds p (record p { queue = q }) new 0
queue-Adds p q new v e h = record {
  assembler = refl;
  stored = refl;
  records = refl;
  packs = refl;
  error = refl;
  phase = refl;
  dropped = omega arith;
  accounted = v;
  captures = e;
  shut = h;
}

-- Where the queue does not change.
other-Adds :
    (p q : Pipeline) (refused : ℕ)
    → q.queue ≡ p.queue
    → q.assembler ≡ p.assembler
    → q.stored ≡ p.stored
    → q.counters.persisted_records ≡ p.counters.persisted_records
    → q.counters.packs_persisted ≡ p.counters.packs_persisted
    → q.error ≡ p.error
    → q.phase ≡ p.phase
    → drops q ≡ drops p + refused
    → Adds p q [] refused
other-Adds p q refused same assembler stored records packs error phase count = record {
  assembler = assembler;
  stored = stored;
  records = records;
  packs = packs;
  error = error;
  phase = phase;
  dropped = count;
  accounted = λ v. rw same v;
  captures = rw same (sym (append-nil (queued p.queue)));
  shut = λ h. (rw same h, refl);
}

pub begins-Adds :
    (clock_ns : ℕ → ℕ) (p : Pipeline) (r : CaptureRecord)
    → Adds p (submit_begin clock_ns p r).0 [] (entry_refusal (submit_begin clock_ns p r).1)
unfolding submit_begin
begins-Adds clock_ns p r =
    let P : Pipeline × Entry → Type 0 = λ x. Adds p x.0 [] (entry_refusal x.1) in
    if_intro P (not p.started) (other-Adds p _ 0 refl refl refl refl refl refl refl (omega arith)) (
      if_intro P (is_some p.error)
        (other-Adds p _ 0 refl refl refl refl refl refl refl (omega arith))
        (if_intro P (ltb p.config.max_pack_bytes (length r.payload))
          (other-Adds p _ 1 refl refl refl refl refl refl refl (omega arith))
          (other-Adds p _ 0 refl refl refl refl refl refl refl (omega arith))))

pub puts-Adds :
    (p : Pipeline) (r : CaptureRecord) (entered now : ℕ)
    → Adds p (submit_put p r entered now).0 (accepted_captures r (submit_put p r entered now).1) 0
unfolding submit_put
puts-Adds p r entered now =
    let policy = p.config.overload_policy in
    let timeout = p.config.admission_timeout in
    queue-Adds p _ _ (put-IsAccounted p.queue r policy timeout entered now)
      (put-queued p.queue r policy timeout entered now)
      (put-closed p.queue r policy timeout entered now)

pub ends-Adds :
    (clock_ns : ℕ → ℕ) (p : Pipeline) (r : CaptureRecord) (before : ℕ) (result : AdmissionResult)
    → Adds p (submit_end clock_ns p r before result) [] (refusal result)
unfolding submit_end count_admission
ends-Adds clock_ns p r before accepted =
    other-Adds p _ 0 refl refl refl refl refl refl refl (omega arith)
ends-Adds clock_ns p r before dropped =
    other-Adds p _ 0 refl refl refl refl refl refl refl (omega arith)
ends-Adds clock_ns p r before timed_out =
    other-Adds p _ 0 refl refl refl refl refl refl refl (omega arith)
ends-Adds clock_ns p r before too_large =
    other-Adds p _ 1 refl refl refl refl refl refl refl (omega arith)
ends-Adds clock_ns p r before closed =
    other-Adds p _ 0 refl refl refl refl refl refl refl (omega arith)

pub barrier-Adds :
    (p : Pipeline) (b : FlushBarrier) → Adds p (record p { queue = (put_barrier p.queue b).0 }) [] 0
barrier-Adds p b =
    queue-Adds p _ [] (put_barrier-IsAccounted p.queue b)
      (put_barrier-queued p.queue b ∙ sym (append-nil (queued p.queue)))
      (λ h. (put_barrier-closed p.queue b h, refl))

pub closes-Adds : (p : Pipeline) → Adds p (record p { queue = Queue.close p.queue }) [] 0
unfolding Queue.close
closes-Adds p =
    queue-Adds p _ [] (close-IsAccounted p.queue) (sym (append-nil (queued p.queue)))
      (λ h. (refl, refl))
