-- ===== src/Pipeline/Worker.antt =====
-- `_run`, `_persist` and `_emit` of `HostCapturePipeline`: the worker thread.
use dmi.Base.{
  ℕ, ◌+◌, ◌-◌, Bool, true, false, ◌&&◌, Option, none, some, List, [], ◌∷◌, ◌++◌, ◌==◌,
  if◌then◌else◌, length,
}
use dmi.Model.{CaptureRecord}
use dmi.Queue.{Queue, Timeout, never, after, FlushBarrier, Item, capture, barrier, Outcome}
use dmi.Queue
use dmi.Histogram.{observe}
use dmi.Pack.Writer.{Codec}
use dmi.Assembler.{
  Assembler, ReadyPack, manual, shutdown, oversized, duplicate, writer_failed, Answer, returns,
  raises,
}
use dmi.Assembler
use dmi.Pipeline.{
  Pipeline, PipelineEvent, record_oversized, record_duplicate, pack_persisted, pipeline_failed,
  sink_error, queue_error, assembler_error, Phase, at_get, after_none, holding, latched, closing,
  ended, count_pack, complete, latch, complete_pending,
}

-- A wait of `get`, from `seconds_until_expiry`.
abbrev pub wait_for : Option ℕ → Timeout
wait_for none = never
wait_for (some span) = after span

-- `sink` answers, after the packs that it persisted before, whether it persists this one; `callback`
-- is `None` or answers whether it raises; `clock_ns` is the clock at each reading.
module _ (c : Codec) (sink : List ReadyPack → ReadyPack → Bool)
    (callback : Option (PipelineEvent → Bool)) (clock_ns : ℕ → ℕ) where
  -- `_emit`
  unfoldable pub emit : PipelineEvent → Pipeline → Pipeline
  emit event p = elim callback [
    | none ↦ p
    | some raises_on ↦
        if raises_on event
        then record p {
          counters = record p.counters {
            event_callback_failures = p.counters.event_callback_failures + 1;
          };
        }
        else p
  ]

  -- What `_persist` does once the sink has a pack. The clock was read before the sink was called.
  unfoldable pub note_persisted : Pipeline → ReadyPack → Pipeline
  unfolding emit count_pack
  note_persisted p ready =
      emit
        (pack_persisted ready.pack.pack_id ready.reason ready.pack.record_count
          (length ready.pack.bytes))
        (record p {
          readings = p.readings + 2;
          persist_duration =
              observe p.persist_duration (clock_ns (p.readings + 1) - clock_ns p.readings);
          counters = count_pack ready p.counters;
          stored = p.stored ++ ready ∷ [];
        })

  -- `_persist`; `false` beside the state is what the sink raised.
  unfoldable pub persist : Pipeline → List ReadyPack → Pipeline × Bool
  unfolding note_persisted
  persist p [] = (p, true)
  persist p (ready ∷ rest) =
      if sink p.stored ready
      then persist (note_persisted p ready) rest
      else (record p { readings = p.readings + 1 }, false)

  unfoldable pub settle : Phase → Pipeline × Bool → Pipeline
  unfolding latch
  settle next (p, true) = record p { phase = next }
  settle next (p, false) = latch p sink_error

  -- `self._persist(…)` of what the assembler emitted, or the error that it raised.
  unfoldable pub persist_answer : Phase → Pipeline → Assembler × Answer (List ReadyPack) → Pipeline
  unfolding settle persist latch
  persist_answer next p (a, returns packs) =
      settle next (persist (record p { assembler = a }) packs)
  persist_answer next p (a, raises e) = latch (record p { assembler = a }) (assembler_error e)

  -- A barrier: flush, and complete it, with an error if that failed.
  unfoldable pub settle_barrier : FlushBarrier → Pipeline → Pipeline
  unfolding complete
  settle_barrier b p = elim p.error [
    | none ↦ complete (some b) false p
    | some e ↦ complete (some b) true p
  ]

  -- A capture: the two errors that cost only the one record, or the packs that were emitted.
  unfoldable pub appended :
      Pipeline → CaptureRecord → Assembler × Answer (List ReadyPack) → Pipeline
  unfolding emit persist_answer
  appended p r (a, raises oversized) =
      emit (record_oversized r.metadata.capture_id (length r.payload)) (record p {
        assembler = a;
        phase = at_get;
        counters = record p.counters { oversized_records = p.counters.oversized_records + 1 };
      })
  appended p r (a, raises duplicate) = emit (record_duplicate r.metadata.capture_id) (record p {
    assembler = a;
    phase = at_get;
    counters = record p.counters { duplicate_records = p.counters.duplicate_records + 1 };
  })
  appended p r (a, raises (writer_failed e)) = persist_answer at_get p (a, raises (writer_failed e))
  appended p r (a, returns packs) = persist_answer at_get p (a, returns packs)

  unfoldable pub handle : Pipeline → Item → Pipeline
  unfolding appended settle_barrier persist_answer
  handle p (capture r) =
      appended (record p { readings = p.readings + 1 }) r
        (Assembler.append c p.assembler r (clock_ns p.readings))
  handle p (barrier b) =
      settle_barrier b (persist_answer at_get p (Assembler.flush c p.assembler manual))

  -- `get` answered None: the end of a closed pipeline, or a pack may have expired.
  unfoldable pub handle_none : Pipeline → Pipeline
  unfolding persist_answer
  handle_none p =
      if p.queue.is_closed && p.queue.records == 0
      then persist_answer ended p (Assembler.flush c p.assembler shutdown)
      else persist_answer at_get (record p { readings = p.readings + 1 })
          (Assembler.flush_expired c p.assembler (clock_ns p.readings))

  -- The answer of a pass through `get`; a pass that waits is made again.
  unfoldable pub got : Pipeline → Queue × Outcome (Option Item) → Pipeline
  unfolding latch
  got p (q, Outcome.returns none) = record p {
    queue = q;
    readings = p.readings + 1;
    phase = after_none;
  }
  got p (q, Outcome.returns (some item)) = record p {
    queue = q;
    readings = p.readings + 1;
    phase = holding item;
  }
  got p (q, Outcome.blocks) = p
  got p (q, Outcome.value_error) = latch p queue_error

  unfoldable pub work_in : Phase → Pipeline → ℕ → ℕ → Pipeline
  unfolding got handle handle_none complete_pending emit
  work_in at_get p entered now = got p (
      Queue.get p.queue (wait_for (Assembler.until_expiry c p.assembler (clock_ns p.readings)))
        entered now)
  work_in after_none p entered now = handle_none p
  work_in (holding item) p entered now = handle p item
  work_in (latched pending) p entered now = record p {
    queue = Queue.close p.queue;
    phase = closing pending;
  }
  work_in (closing pending) p entered now =
      emit pipeline_failed (complete_pending pending (record p { phase = ended }))
  work_in ended p entered now = p

  -- One step of `_run`, once the thread is started. `entered` and `now` are the readings of the
  -- other clock by which `get` waits.
  unfoldable pub work : Pipeline → ℕ → ℕ → Pipeline
  unfolding work_in
  work p entered now = if p.started then work_in p.phase p entered now else p
