-- ===== src/Pipeline.antt =====
-- `HostCapturePipeline` of src/dmi/storage/capture/pipeline.py: its state, and what its worker
-- thread does. The sink, the clock and the event callback are other code: they are parameters. The
-- worker's loop is cut where it gives up the queue's lock, so that other threads may act between
-- its `get` and what it does with the answer; each part is one step of `work`.
pub mod Worker
pub mod Clients
pub mod Persisting
pub mod Delivery
pub mod Captures
pub mod Barriers
pub mod Ending
pub mod Runs
pub mod Admitting
pub mod Accounting
pub mod Completeness
pub mod Failing
pub mod Flushing
pub mod Flushes
pub mod Waiting
pub mod Abandoned
pub mod Submitting
pub mod Closing
pub mod Following
pub mod Draining
use dmi.Base.{
  ℕ, zero, suc, ◌+◌, ◌-◌, String, Bool, true, false, not, ◌&&◌, ◌||◌, Option, none, some, List, [],
  ◌∷◌, ◌++◌, ltb, ◌==◌, if◌then◌else◌, length,
}
use dmi.Model.{CaptureRecord}
use dmi.Queue.{
  Queue, OverloadPolicy, Timeout, never, after, is_invalid, FlushBarrier, Item, capture, barrier,
  Outcome,
}
use dmi.Queue
use dmi.Histogram.{Histogram, no_durations, observe}
use dmi.Pack.Writer.{Codec}
use dmi.Assembler.{
  Assembler, ReadyPack, FlushReason, size, records, linger, session, manual, shutdown, Failure,
  oversized, duplicate, writer_failed, Answer, returns, raises,
}
use dmi.Assembler

pub record PipelineConfig : Type 0 where
  pub max_queue_records : ℕ
  pub max_queue_bytes : ℕ
  pub max_pack_bytes : ℕ
  pub max_pack_records : ℕ
  pub max_linger_ns : ℕ
  pub overload_policy : OverloadPolicy
  pub admission_timeout : Timeout

-- `__post_init__`: whether it raises nothing.
unfoldable pub config_valid : PipelineConfig → Bool
config_valid g =
    ltb 0 g.max_queue_records
    && ltb 0 g.max_queue_bytes
    && ltb 0 g.max_pack_bytes
    && ltb 0 g.max_pack_records
    && ltb 0 g.max_linger_ns
    && not (is_invalid g.admission_timeout)

pub record Counters : Type 0 where
  pub submitted_records : ℕ
  pub admitted_records : ℕ
  pub admitted_bytes : ℕ
  pub dropped_records : ℕ
  pub timed_out_records : ℕ
  pub oversized_records : ℕ
  pub duplicate_records : ℕ
  pub rejected_closed_records : ℕ
  pub persisted_records : ℕ
  pub packs_persisted : ℕ
  pub packed_bytes : ℕ
  pub flush_size : ℕ
  pub flush_records : ℕ
  pub flush_linger : ℕ
  pub flush_session : ℕ
  pub flush_manual : ℕ
  pub flush_shutdown : ℕ
  pub failures : ℕ
  pub event_callback_failures : ℕ

abbrev pub no_counts : Counters
no_counts = record {
  submitted_records = 0;
  admitted_records = 0;
  admitted_bytes = 0;
  dropped_records = 0;
  timed_out_records = 0;
  oversized_records = 0;
  duplicate_records = 0;
  rejected_closed_records = 0;
  persisted_records = 0;
  packs_persisted = 0;
  packed_bytes = 0;
  flush_size = 0;
  flush_records = 0;
  flush_linger = 0;
  flush_session = 0;
  flush_manual = 0;
  flush_shutdown = 0;
  failures = 0;
  event_callback_failures = 0;
}

-- `PipelineEvent`, one constructor for each event.
pub data PipelineEvent : Type 0 where
  record_oversized : String → ℕ → PipelineEvent
  record_duplicate : String → PipelineEvent
  pack_persisted : String → FlushReason → ℕ → ℕ → PipelineEvent
  pipeline_failed : PipelineEvent

-- What `_error` holds: what the sink raised, or the assembler, or a call of the queue.
pub data PipelineError : Type 0 where
  sink_error queue_error : PipelineError
  assembler_error : Failure → PipelineError

-- Where the worker thread is. After the error is latched it still closes the queue, and then
-- completes the flush that it saw pending.
pub data Phase : Type 0 where
  at_get : Phase
  after_none : Phase
  holding : Item → Phase
  latched : Option FlushBarrier → Phase
  closing : Option FlushBarrier → Phase
  ended : Phase

-- The phases of a worker that has left its loop.
abbrev pub is_failing : Phase → Bool
is_failing (latched pending) = true
is_failing (closing pending) = true
is_failing ended = true
is_failing _ = false

pub record Pipeline : Type 0 where
  pub config : PipelineConfig
  pub queue : Queue
  pub assembler : Assembler
  pub started : Bool
  pub phase : Phase
  pub pending_flush : Option FlushBarrier
  pub error : Option PipelineError
  pub counters : Counters
  pub admission_duration : Histogram
  pub persist_duration : Histogram
  -- the barriers made so far, and those completed, with whether an error was set
  pub barriers : ℕ
  pub completed : List (ℕ × Bool)
  -- what the sink has persisted, and how often the clock was read
  pub stored : List ReadyPack
  pub readings : ℕ

-- `__init__` of a valid configuration, with its queue and its assembler.
abbrev pub fresh : PipelineConfig → Queue → Assembler → Pipeline
fresh g q a = record {
  config = g;
  queue = q;
  assembler = a;
  started = false;
  phase = at_get;
  pending_flush = none;
  error = none;
  counters = no_counts;
  admission_duration = no_durations;
  persist_duration = no_durations;
  barriers = 0;
  completed = [];
  stored = [];
  readings = 0;
}

-- `none` is the `ValueError`.
unfoldable pub new_with : PipelineConfig → Option Queue → Option Assembler → Option Pipeline
new_with g none a = none
new_with g (some q) none = none
new_with g (some q) (some a) = some (fresh g q a)

unfoldable pub new : PipelineConfig → (ℕ → String) → Option Pipeline
unfolding new_with
new g factory =
    new_with g (Queue.new g.max_queue_records g.max_queue_bytes)
      (Assembler.new g.max_pack_bytes g.max_pack_records g.max_linger_ns factory)

-- `start`; `false` is the `RuntimeError` of a second call.
unfoldable pub start : Pipeline → Pipeline × Bool
start p = if p.started then (p, false) else (record p { started = true }, true)

-- `self._counters[f"flush_{reason}"] += 1`
unfoldable pub count_reason : FlushReason → Counters → Counters
count_reason size n = record n { flush_size = n.flush_size + 1 }
count_reason records n = record n { flush_records = n.flush_records + 1 }
count_reason linger n = record n { flush_linger = n.flush_linger + 1 }
count_reason session n = record n { flush_session = n.flush_session + 1 }
count_reason manual n = record n { flush_manual = n.flush_manual + 1 }
count_reason shutdown n = record n { flush_shutdown = n.flush_shutdown + 1 }

unfoldable pub count_pack : ReadyPack → Counters → Counters
unfolding count_reason
count_pack ready n = count_reason ready.reason (record n {
  persisted_records = n.persisted_records + ready.pack.record_count;
  packs_persisted = n.packs_persisted + 1;
  packed_bytes = n.packed_bytes + length ready.pack.bytes;
})

-- `flush_barrier.completed.set()`, with its error or none.
unfoldable pub complete : Option FlushBarrier → Bool → Pipeline → Pipeline
complete none failed p = p
complete (some b) failed p = record p { completed = (b.token, failed) ∷ p.completed }

-- `completed.is_set()`, with whether `error` is set.
unfoldable pub completion : ℕ → List (ℕ × Bool) → Option Bool
completion token [] = none
completion token ((t, failed) ∷ rest) = if t == token then some failed else completion token rest

-- The handler of the worker: the error is latched, and the pending flush read, under one lock.
unfoldable pub latch : Pipeline → PipelineError → Pipeline
latch p e = record p {
  error = some e;
  counters = record p.counters { failures = p.counters.failures + 1 };
  phase = latched p.pending_flush;
}

-- `if pending is not None and not pending.completed.is_set()`
unfoldable pub complete_pending : Option FlushBarrier → Pipeline → Pipeline
unfolding complete completion
complete_pending none p = p
complete_pending (some b) p = elim (completion b.token p.completed) [
  | none ↦ complete (some b) true p
  | some failed ↦ p
]
