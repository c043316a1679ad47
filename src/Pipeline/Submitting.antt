-- ===== src/Pipeline/Submitting.antt =====
-- What a call of `submit` does to the counters and to the queue.
use dmi.Base.{
  ℕ, ◌+◌, ◌≡◌, refl, true, not, [], ◌∷◌, ◌++◌, arith, is_some, Bool-cases, false, inl, inr, ap,
  if_intro, if_cases, length, ltb,
}
use dmi.Model.{CaptureRecord}
use dmi.Queue.{
  OverloadPolicy, Timeout, Queue, AdmissionResult, accepted, dropped, timed_out, too_large, closed,
  Outcome, capture, admit, put, fits, is_invalid, is_past, drops, record_bytes,
}
use dmi.Pipeline.{Pipeline, Counters}
use dmi.Pipeline.Clients.{
  Entry, submit_begin, submit_put, submit_end, Submitted, raises_not_started, raises_failed,
  raises_value, waits, returned, submit_rest, submit_entered, submit, count_admission,
}

-- 1 for the answer itself, 0 for another one.
abbrev pub one_if : AdmissionResult → AdmissionResult → ℕ
one_if accepted accepted = 1
one_if dropped dropped = 1
one_if timed_out timed_out = 1
one_if too_large too_large = 1
one_if closed closed = 1
one_if _ _ = 0

-- From `n` to `m` the counter of this answer has risen by one, and those of the others have not.
pub record Counts (result : AdmissionResult) (n m : Counters) : Type 0 where
  pub admitted : m.admitted_records ≡ n.admitted_records + one_if accepted result
  pub dropped_ones : m.dropped_records ≡ n.dropped_records + one_if dropped result
  pub timed_out_ones : m.timed_out_records ≡ n.timed_out_records + one_if timed_out result
  pub oversized : m.oversized_records ≡ n.oversized_records + one_if too_large result
  pub rejected : m.rejected_closed_records ≡ n.rejected_closed_records + one_if closed result

-- None of them has risen.
pub record CountsNone (n m : Counters) : Type 0 where
  pub admitted : m.admitted_records ≡ n.admitted_records
  pub dropped_ones : m.dropped_records ≡ n.dropped_records
  pub timed_out_ones : m.timed_out_records ≡ n.timed_out_records
  pub oversized : m.oversized_records ≡ n.oversized_records
  pub rejected : m.rejected_closed_records ≡ n.rejected_closed_records

-- The record went into the queue, and its bytes were counted, or the queue is as it was.
abbrev pub Enters : AdmissionResult → CaptureRecord → Pipeline → Pipeline → Type 0
Enters accepted r p q =
    (q.queue.items ≡ p.queue.items ++ capture r ∷ [])
    × (q.counters.admitted_bytes ≡ p.counters.admitted_bytes + length r.payload)
Enters _ r p q = (q.queue ≡ p.queue) × (q.counters.admitted_bytes ≡ p.counters.admitted_bytes)

-- The pipeline is started and has not failed.
abbrev pub Accepts : Pipeline → Type 0
Accepts p = (p.started ≡ true) × (is_some p.error ≡ false)

-- How a call ends, when it ends so, and what it has changed then.
abbrev pub Accounts : CaptureRecord → Pipeline → Pipeline × Submitted → Type 0
Accounts r p (q, returned result) =
    Accepts p
    × (q.counters.submitted_records ≡ p.counters.submitted_records + 1)
    × Counts result p.counters q.counters
    × Enters result r p q
Accounts r p (q, waits) =
    Accepts p
    × (q.queue ≡ p.queue)
    × (q.counters.submitted_records ≡ p.counters.submitted_records + 1)
    × CountsNone p.counters q.counters
Accounts r p (q, raises_not_started) = (p.started ≡ false) × (q ≡ p)
Accounts r p (q, raises_failed) =
    (p.started ≡ true)
    × (is_some p.error ≡ true)
    × (q.queue ≡ p.queue)
    × (q.counters.submitted_records ≡ p.counters.submitted_records + 1)
    × CountsNone p.counters q.counters
Accounts r p (q, raises_value) =
    Accepts p
    × (q.queue ≡ p.queue)
    × (q.counters.submitted_records ≡ p.counters.submitted_records + 1)
    × CountsNone p.counters q.counters

-- What `put` answers, with what it does to the queue.
abbrev PutsIn : CaptureRecord → Queue → Queue × Outcome AdmissionResult → Type 0
PutsIn r q (q', Outcome.returns accepted) = q'.items ≡ q.items ++ capture r ∷ []
PutsIn r q (q', Outcome.returns _) = q' ≡ q
PutsIn r q (q', Outcome.blocks) = q' ≡ q
PutsIn r q (q', Outcome.value_error) = q' ≡ q

put-PutsIn :
    (q : Queue) (r : CaptureRecord) (policy : OverloadPolicy) (timeout : Timeout) (started now : ℕ)
    → PutsIn r q (put q r policy timeout started now)
unfolding put admit
put-PutsIn q r policy timeout started now = if_intro (PutsIn r q) (is_invalid timeout) refl (
    if_intro (PutsIn r q) (ltb q.max_bytes (record_bytes r)) refl (
      if_intro (PutsIn r q) q.is_closed refl (
        if_intro (PutsIn r q) (fits q (record_bytes r)) refl (
          if_intro (PutsIn r q) (drops policy) refl
            (if_intro (PutsIn r q) (is_past timeout started now) refl refl)))))

-- The state in which `submit` calls `put`.
record Entered (p q : Pipeline) : Type 0 where
  fine : Accepts p
  same_queue : q.queue ≡ p.queue
  submitted : q.counters.submitted_records ≡ p.counters.submitted_records + 1
  counted : CountsNone p.counters q.counters
  bytes : q.counters.admitted_bytes ≡ p.counters.admitted_bytes

count_admission-Counts :
    (result : AdmissionResult) (bytes : ℕ) (n m : Counters)
    → CountsNone n m
    → Counts result n (count_admission result bytes m)
unfolding count_admission
count_admission-Counts accepted bytes n m h = grind arith
count_admission-Counts dropped bytes n m h = grind arith
count_admission-Counts timed_out bytes n m h = grind arith
count_admission-Counts too_large bytes n m h = grind arith
count_admission-Counts closed bytes n m h = grind arith

started_lem : (p : Pipeline) → not p.started ≡ false → p.started ≡ true
started_lem p h = elim (Bool-cases p.started) [ inl on ↦ on | inr off ↦ cc (ap not off) ]

stopped_lem : (p : Pipeline) → not p.started ≡ true → p.started ≡ false
stopped_lem p h = elim (Bool-cases p.started) [ inl on ↦ cc (ap not on) | inr off ↦ off ]

none_counted : (n : Counters) (k : ℕ) → CountsNone n (record n { submitted_records = k })
none_counted n k = record {
  admitted = refl;
  dropped_ones = refl;
  timed_out_ones = refl;
  oversized = refl;
  rejected = refl;
}

module _ (clock_ns : ℕ → ℕ) where
  rest-Accounts :
      (r : CaptureRecord) (before : ℕ) (p q : Pipeline) (x : Queue × Outcome AdmissionResult)
      → Entered p q
      → PutsIn r p.queue x
      → Accounts r p (submit_rest clock_ns r before (record q { queue = x.0 }, x.1))
  unfolding submit_rest submit_end count_admission
  rest-Accounts r before p q (q', Outcome.returns accepted) n h = (
    n.fine,
    n.submitted,
    count_admission-Counts accepted (length r.payload) p.counters q.counters n.counted,
    (h, omega (arith, n.bytes)),
  )
  rest-Accounts r before p q (q', Outcome.returns dropped) n h = (
    n.fine,
    n.submitted,
    count_admission-Counts dropped (length r.payload) p.counters q.counters n.counted,
    (h, n.bytes),
  )
  rest-Accounts r before p q (q', Outcome.returns timed_out) n h = (
    n.fine,
    n.submitted,
    count_admission-Counts timed_out (length r.payload) p.counters q.counters n.counted,
    (h, n.bytes),
  )
  rest-Accounts r before p q (q', Outcome.returns too_large) n h = (
    n.fine,
    n.submitted,
    count_admission-Counts too_large (length r.payload) p.counters q.counters n.counted,
    (h, n.bytes),
  )
  rest-Accounts r before p q (q', Outcome.returns closed) n h = (
    n.fine,
    n.submitted,
    count_admission-Counts closed (length r.payload) p.counters q.counters n.counted,
    (h, n.bytes),
  )
  rest-Accounts r before p q (q', Outcome.blocks) n h = (n.fine, h, n.submitted, n.counted)
  rest-Accounts r before p q (q', Outcome.value_error) n h = (n.fine, h, n.submitted, n.counted)

  -- `submit` raises `RuntimeError` only where the pipeline is not started, and changes nothing then;
  -- it raises `PipelineFailedError` only where the pipeline is started and has failed, and then counts
  -- the record as submitted and changes neither the queue nor a counter of the answers. Where it is
  -- started and has not failed, `submitted_records` rises by one, and: the call answers, the counter
  -- of its answer rises by one and those of the four other answers are as they were, and the record
  -- stands last in the queue, with its bytes counted, where the answer is `accepted`, the queue and
  -- the bytes being as they were where it is not; or a pass waits, or refuses its timeout, and leaves
  -- the queue and the five counters as they were.
  pub submit-Accounts :
      (p : Pipeline) (r : CaptureRecord) (entered now : ℕ)
      → Accounts r p (submit clock_ns p r entered now)
  unfolding submit submit_begin submit_entered submit_put
  submit-Accounts p r entered now =
      let P : Pipeline × Entry → Type 0 =
        λ x. Accounts r p (submit_entered clock_ns r entered now x) in
      let none_yet = none_counted p.counters (p.counters.submitted_records + 1) in
      if_cases P (not p.started) (λ off. (stopped_lem p off, refl))
        λ on.
          if_cases P (is_some p.error) (λ bad. (started_lem p on, bad, refl, refl, none_yet))
            λ fine.
              if_cases P (ltb p.config.max_pack_bytes (length r.payload))
                (λ large. (
                  (started_lem p on, fine),
                  refl,
                  count_admission-Counts too_large (length r.payload) p.counters _ none_yet,
                  (refl, refl),
                ))
                λ small.
                  rest-Accounts r (clock_ns p.readings) p _ _
                    (record {
                      fine = (started_lem p on, fine);
                      same_queue = refl;
                      submitted = refl;
                      counted = none_yet;
                      bytes = refl;
                    })
                    (put-PutsIn p.queue r p.config.overload_policy p.config.admission_timeout
                      entered now)
