-- ===== src/Pipeline/Clients.antt =====
-- `submit` and `flush` of `HostCapturePipeline`, in the parts that other threads can act between.
use dmi.Base.{
  ℕ, ◌+◌, ◌-◌, Bool, true, false, not, Option, none, some, ltb, leb, ◌==◌, if◌then◌else◌, is_some,
  length,
}
use dmi.Model.{CaptureRecord}
use dmi.Queue.{
  Queue, AdmissionResult, accepted, dropped, timed_out, too_large, closed, FlushBarrier, Outcome,
}
use dmi.Queue
use dmi.Histogram.{observe}
use dmi.Pipeline.{Pipeline, Counters, completion}

-- How the first part of `submit` ends: the `RuntimeError`, the `PipelineFailedError`, an answer, or
-- the reading of the clock with which it goes on.
pub data Entry : Type 0 where
  not_started has_failed : Entry
  answers : AdmissionResult → Entry
  enters : ℕ → Entry

unfoldable pub submit_begin : (ℕ → ℕ) → Pipeline → CaptureRecord → Pipeline × Entry
submit_begin clock_ns p r =
    let counted = record p.counters { submitted_records = p.counters.submitted_records + 1 } in
    if not p.started
    then (p, not_started)
    else if is_some p.error
    then (record p { counters = counted }, has_failed)
    else if ltb p.config.max_pack_bytes (length r.payload)
    then (
      record p { counters = record counted { oversized_records = counted.oversized_records + 1 } },
      answers too_large,
    )
    else (record p { counters = counted; readings = p.readings + 1 }, enters (clock_ns p.readings))

-- `self._queue.put(…)`, one pass.
unfoldable pub submit_put : Pipeline → CaptureRecord → ℕ → ℕ → Pipeline × Outcome AdmissionResult
submit_put p r entered now =
    let (q, o) =
      Queue.put p.queue r p.config.overload_policy p.config.admission_timeout entered now in
    (record p { queue = q }, o)

unfoldable pub count_admission : AdmissionResult → ℕ → Counters → Counters
count_admission accepted bytes n = record n {
  admitted_records = n.admitted_records + 1;
  admitted_bytes = n.admitted_bytes + bytes;
}
count_admission dropped bytes n = record n { dropped_records = n.dropped_records + 1 }
count_admission timed_out bytes n = record n { timed_out_records = n.timed_out_records + 1 }
count_admission too_large bytes n = record n { oversized_records = n.oversized_records + 1 }
count_admission closed bytes n = record n {
  rejected_closed_records = n.rejected_closed_records + 1;
}

unfoldable pub submit_end : (ℕ → ℕ) → Pipeline → CaptureRecord → ℕ → AdmissionResult → Pipeline
unfolding count_admission
submit_end clock_ns p r before result = record p {
  readings = p.readings + 1;
  admission_duration = observe p.admission_duration (clock_ns p.readings - before);
  counters = count_admission result (length r.payload) p.counters;
}

-- How `submit` ends; `waits` is a pass of `put` that waits.
pub data Submitted : Type 0 where
  raises_not_started raises_failed raises_value waits : Submitted
  returned : AdmissionResult → Submitted

unfoldable pub submit_rest :
    (ℕ → ℕ) → CaptureRecord → ℕ → Pipeline × Outcome AdmissionResult → Pipeline × Submitted
unfolding submit_end
submit_rest clock_ns r before (p, Outcome.returns result) =
    (submit_end clock_ns p r before result, returned result)
submit_rest clock_ns r before (p, Outcome.blocks) = (p, waits)
submit_rest clock_ns r before (p, Outcome.value_error) = (p, raises_value)

unfoldable pub submit_entered :
    (ℕ → ℕ) → CaptureRecord → ℕ → ℕ → Pipeline × Entry → Pipeline × Submitted
unfolding submit_rest submit_put
submit_entered clock_ns r entered now (p, not_started) = (p, raises_not_started)
submit_entered clock_ns r entered now (p, has_failed) = (p, raises_failed)
submit_entered clock_ns r entered now (p, answers result) = (p, returned result)
submit_entered clock_ns r entered now (p, enters before) =
    submit_rest clock_ns r before (submit_put p r entered now)

-- `submit`, where no other thread acts in between.
unfoldable pub submit : (ℕ → ℕ) → Pipeline → CaptureRecord → ℕ → ℕ → Pipeline × Submitted
unfolding submit_begin submit_entered
submit clock_ns p r entered now = submit_entered clock_ns r entered now (submit_begin clock_ns p r)

-- Where a call of `flush` is that holds `_flush_lock`, with the target that it read before.
pub data Waiter : Type 0 where
  asks : ℕ → Waiter
  joins : FlushBarrier → ℕ → Waiter
  publishes : ℕ → Waiter
  enqueues : FlushBarrier → Waiter
  refused : FlushBarrier → Waiter
  rechecks : FlushBarrier → Waiter
  awaits : FlushBarrier → Waiter
  flushed : Bool → Waiter
  failed : Waiter

-- `if self._pending_flush is pending`
unfoldable pub forget : FlushBarrier → Pipeline → Pipeline
forget b p = elim p.pending_flush [
  | none ↦ p
  | some other ↦ if other.token == b.token then record p { pending_flush = none } else p
]

abbrev pub joined : Option FlushBarrier → ℕ → Waiter
joined none target = publishes target
joined (some b) target = joins b target

-- A wait for `completed`: what it holds by now, with whether the wait is over in any case.
unfoldable pub after_join : Pipeline → FlushBarrier → ℕ → Bool → Option Bool → Pipeline × Waiter
unfolding forget
after_join p b target late none = (p, if late then flushed false else joins b target)
after_join p b target late (some true) = (p, failed)
after_join p b target late (some false) =
    (forget b p, if leb target b.target_admitted then flushed true else publishes target)

unfoldable pub after_wait : Pipeline → FlushBarrier → Bool → Option Bool → Pipeline × Waiter
unfolding forget
after_wait p b late none = (p, if late then flushed false else awaits b)
after_wait p b late (some true) = (p, failed)
after_wait p b late (some false) = (forget b p, flushed true)

abbrev pub admitted_or_refused : AdmissionResult → FlushBarrier → Waiter
admitted_or_refused closed b = refused b
admitted_or_refused _ b = rechecks b

-- One step of `flush`; `late` is whether its deadline has passed.
unfoldable pub flush_step : Pipeline → Waiter → Bool → Pipeline × Waiter
unfolding after_join after_wait forget
flush_step p (asks target) late =
    if is_some p.error then (p, failed) else (p, joined p.pending_flush target)
flush_step p (joins b target) late = after_join p b target late (completion b.token p.completed)
flush_step p (publishes target) late =
    let b : FlushBarrier = record { token = p.barriers; target_admitted = target } in
    (record p { barriers = p.barriers + 1; pending_flush = some b }, enqueues b)
flush_step p (enqueues b) late =
    let (q, result) = Queue.put_barrier p.queue b in
    (record p { queue = q }, admitted_or_refused result b)
flush_step p (refused b) late = (forget b p, if is_some p.error then failed else flushed false)
flush_step p (rechecks b) late = if is_some p.error then (forget b p, failed) else (p, awaits b)
flush_step p (awaits b) late = after_wait p b late (completion b.token p.completed)
flush_step p (flushed done) late = (p, flushed done)
flush_step p failed late = (p, failed)
