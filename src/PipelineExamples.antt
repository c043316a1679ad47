-- ===== src/PipelineExamples.antt =====
-- The theorems on the pipeline at concrete inputs.
use dmi.Base.{
  ℕ, ◌+◌, ◌≡◌, ◌⊎◌, inl, refl, Bool, true, false, none, some, List, [], ◌∷◌, length, arith, is_some,
  total, Omits,
}
use dmi.Model.{CaptureRecord}
use dmi.Queue.{capture, barrier, FlushBarrier}
use dmi.Queue
use dmi.Histogram.{no_durations, observe_all, IsTally, observe_all-IsTally}
use dmi.Pack.Writer
use dmi.Pack.Bytes.{aligned_length, align, le_bytes}
use dmi.Pack.Writer.{Codec}
use dmi.Assembler.{ReadyPack}
use dmi.Assembler
use dmi.Assembler.Contents.{Emits, nothing}
use dmi.Pipeline.{Pipeline, PipelineEvent, completion, new, start}
use dmi.Pipeline
use dmi.Pipeline.Worker.{work, handle}
use dmi.Pipeline.Worker
use dmi.Pipeline.Clients.{asks, awaits, flushed, Waiter, submit, Submitted}
use dmi.Pipeline.Clients
use dmi.Pipeline.Delivery.{Delivered, Failed}
use dmi.Pipeline.Captures.{Handles, handle_capture}
use dmi.Pipeline.Barriers.{handle_barrier}
use dmi.Pipeline.Runs.{
  Call, begins, puts, ends, closes, works, run, all_admits, all_refusals, admits, refusals, step,
}
use dmi.Pipeline.Flushing.{Move, flushes, calls, acts, move, moves}
use dmi.Pipeline.Waiting.{failed_flush_completes}
use dmi.Pipeline.Abandoned.{waited, all_patient, next_barrier, close_abandons_flush}
use dmi.Pipeline.Submitting.{Accounts, submit-Accounts}
use dmi.Pipeline.Closing.{close_end, snapshot, closed_snapshot_balances}
use dmi.Pipeline.Draining.{work_all, closed_worker_ends}
use dmi.Samples.{
  first, second, huge, plain, new_pipeline, started_pipeline, idle_pipeline, busy_pipeline,
  capture_config,
}
use dmi.Examples.{busy-Contains}

abbrev takes : List ReadyPack → ReadyPack → Bool
takes stored ready = true

abbrev refuses : List ReadyPack → ReadyPack → Bool
refuses stored ready = false

abbrev ticks : ℕ → ℕ
ticks n = n

observe_all-IsTally_example :
    IsTally (observe_all no_durations (5 ∷ 20000 ∷ [])) (0 + total (λ n. n) (5 ∷ 20000 ∷ []))
    × ((observe_all no_durations (5 ∷ 20000 ∷ [])).count ≡ 0 + 2)
observe_all-IsTally_example =
    observe_all-IsTally (5 ∷ 20000 ∷ []) no_durations 0
      (record { buckets = refl; counted = refl; summed = refl; within = omega arith })

busy-Delivered : Delivered plain 2 busy_pipeline (first ∷ [])
busy-Delivered = record {
  xs = [];
  ys = first ∷ [];
  in_store = nothing refl;
  in_pack = busy-Contains;
  order = refl;
  limit = refl;
  counted = refl;
  counted_packs = refl;
}

handle_capture_example :
    Handles plain
      (λ id. refl)
      (λ bytes. refl)
      takes
      none
      ticks
      2
      busy_pipeline
      (handle plain takes none ticks busy_pipeline (capture second))
      second
      (first ∷ [])
handle_capture_example =
    handle_capture plain (λ id. refl) (λ bytes. refl) takes none ticks 2 busy_pipeline second
      (first ∷ []) busy-Delivered (inl refl)

abbrev waiting : FlushBarrier
waiting = record { token = 0; target_admitted = 1 }

handle_barrier_example :
    (Failed (handle plain takes none ticks busy_pipeline (barrier waiting))
      × (completion 0 (handle plain takes none ticks busy_pipeline (barrier waiting)).completed
          ≡ some true))
    ⊎ ((completion 0 (handle plain takes none ticks busy_pipeline (barrier waiting)).completed
          ≡ some false)
        × ((handle plain takes none ticks busy_pipeline (barrier waiting)).error ≡ none)
        × Emits plain 2
            (handle plain takes none ticks busy_pipeline (barrier waiting)).stored
            (first ∷ [])
        × ((handle plain takes none ticks busy_pipeline
              (barrier waiting)).counters.persisted_records
            ≡ 1))
handle_barrier_example =
    handle_barrier plain (λ id. refl) (λ bytes. refl) takes none ticks 2 busy_pipeline waiting
      (first ∷ []) busy-Delivered refl

submit-Accounts_example : Accounts first started_pipeline (submit ticks started_pipeline first 0 0)
submit-Accounts_example = submit-Accounts ticks started_pipeline first 0 0

close_abandons_flush_example :
    (is_some
        (work plain takes none ticks
          (step plain takes none ticks (waited idle_pipeline 0) closes)
          0
          0).error
      ≡ true)
    ⊎ ((moves plain takes none ticks
          (idle_pipeline, asks 0)
          (flushes false
            ∷ flushes false
            ∷ flushes false
            ∷ flushes false
            ∷ acts closes
            ∷ acts (works 0 0)
            ∷ acts (works 0 0)
            ∷ flushes false
            ∷ [])).1
        ≡ awaits (next_barrier idle_pipeline 0))
unfolding all_patient Pipeline.completion
close_abandons_flush_example =
    close_abandons_flush plain takes none ticks idle_pipeline 0 0 0
      (acts (works 0 0) ∷ flushes false ∷ []) refl refl refl refl refl refl refl refl

abbrev closed_pipeline : Pipeline
closed_pipeline = record busy_pipeline {
  queue = record new_pipeline.queue {
    items = capture second ∷ [];
    records = 1;
    bytes = 2;
    peak_records = 1;
    peak_bytes = 2;
    is_closed = true;
  };
}

abbrev seven_times : List (ℕ × ℕ)
seven_times = (0, 0) ∷ (0, 0) ∷ (0, 0) ∷ (0, 0) ∷ (0, 0) ∷ (0, 0) ∷ (0, 0) ∷ []

closed_worker_ends_example :
    (work_all plain refuses none ticks closed_pipeline seven_times).phase ≡ Pipeline.ended
closed_worker_ends_example =
    closed_worker_ends plain refuses none ticks closed_pipeline seven_times refl refl
      (record {
        records_exact = refl;
        bytes_exact = refl;
        records_peak = omega arith;
        bytes_peak = omega arith;
        records_bounded = omega arith;
        bytes_bounded = omega arith;
      })
      (omega arith)

abbrev failing_moves : List Move
failing_moves =
    acts (puts first 0 0)
    ∷ acts (puts second 0 0)
    ∷ acts (works 0 0)
    ∷ acts (works 0 0)
    ∷ acts (works 0 0)
    ∷ calls 2
    ∷ flushes false
    ∷ flushes false
    ∷ flushes false
    ∷ flushes false
    ∷ acts (works 0 0)
    ∷ []

abbrev left_waiting : Pipeline × Waiter
left_waiting = moves plain refuses none ticks ((start new_pipeline).0, flushed true) failing_moves

failed_flush_completes_example :
    is_some (
      completion 0
        (work plain refuses none ticks
          (work plain refuses none ticks left_waiting.0 0 0)
          0
          0).completed)
    ≡ true
unfolding Pipeline.new Pipeline.new_with Queue.new Assembler.new Pipeline.start moves move step
    Pipeline.count_reason Pipeline.count_pack Pipeline.complete Pipeline.completion Pipeline.latch
    Pipeline.complete_pending Worker.emit Worker.note_persisted Worker.persist Worker.settle
    Worker.persist_answer Worker.settle_barrier Worker.appended Worker.handle Worker.handle_none
    Worker.got Worker.work_in Worker.work Clients.submit_put Clients.flush_step Clients.forget
    Clients.after_wait Clients.after_join Queue.admit Queue.put Queue.put_barrier Queue.get
    Queue.get_body Queue.close Queue.fits Assembler.until_expiry Writer.append Writer.write_record
    Writer.index_record Writer.projected_footer aligned_length align Writer.header_parts le_bytes
    Writer.new Writer.seal Writer.seal_pack Writer.body Writer.footer Writer.trailer_parts
    Writer.join Assembler.append Assembler.flush Assembler.sealed_pack Assembler.flush_full
    Assembler.append_same Assembler.append_to Assembler.append_current Assembler.flush_expired
    Assembler.flush_if_full Assembler.writer_with Assembler.first_append Assembler.adopt
    Assembler.record_scope
failed_flush_completes_example =
    failed_flush_completes plain refuses none ticks capture_config (λ n. "p") new_pipeline
      failing_moves (record { token = 0; target_admitted = 2 }) 0 0 0 0 refl (inl refl) refl

-- It fits no pack.
abbrev wide : CaptureRecord
wide = record huge { payload = 0 ∷ huge.payload }

-- The queue takes `first`, and `submit` refuses `wide`.
abbrev ending_calls : List Call
ending_calls =
    begins first
    ∷ puts first 0 0
    ∷ begins wide
    ∷ ends first 0 Queue.accepted
    ∷ works 0 0
    ∷ works 0 0
    ∷ closes
    ∷ works 0 0
    ∷ works 0 0
    ∷ []

abbrev at_end : Pipeline
at_end = run plain takes none ticks (start new_pipeline).0 ending_calls

closed_snapshot_balances_example :
    (kept : List CaptureRecord) × (left_out : ℕ) × Emits plain 2 at_end.stored kept
    × ((snapshot at_end).counters.persisted_records ≡ length kept)
    × Omits left_out (all_admits plain takes none ticks (start new_pipeline).0 ending_calls) kept
    × ((snapshot at_end).counters.oversized_records + (snapshot at_end).counters.duplicate_records
        ≡ left_out + all_refusals plain takes none ticks (start new_pipeline).0 ending_calls)
    × (length (all_admits plain takes none ticks (start new_pipeline).0 ending_calls)
          + all_refusals plain takes none ticks (start new_pipeline).0 ending_calls
        ≡ (snapshot at_end).counters.persisted_records
          + (snapshot at_end).counters.oversized_records
          + (snapshot at_end).counters.duplicate_records)
unfolding Clients.submit_begin Clients.submit_end Clients.count_admission Pipeline.new
    Pipeline.new_with Queue.new Assembler.new Pipeline.start run step close_end
    Pipeline.count_reason Pipeline.count_pack Pipeline.complete Pipeline.completion Pipeline.latch
    Pipeline.complete_pending Worker.emit Worker.note_persisted Worker.persist Worker.settle
    Worker.persist_answer Worker.settle_barrier Worker.appended Worker.handle Worker.handle_none
    Worker.got Worker.work_in Worker.work Clients.submit_put Clients.flush_step Clients.forget
    Clients.after_wait Clients.after_join Queue.admit Queue.put Queue.put_barrier Queue.get
    Queue.get_body Queue.close Queue.fits Assembler.until_expiry Writer.append Writer.write_record
    Writer.index_record Writer.projected_footer aligned_length align Writer.header_parts le_bytes
    Writer.new Writer.seal Writer.seal_pack Writer.body Writer.footer Writer.trailer_parts
    Writer.join Assembler.append Assembler.flush Assembler.sealed_pack Assembler.flush_full
    Assembler.append_same Assembler.append_to Assembler.append_current Assembler.flush_expired
    Assembler.flush_if_full Assembler.writer_with Assembler.first_append Assembler.adopt
    Assembler.record_scope
closed_snapshot_balances_example =
    closed_snapshot_balances plain (λ id. refl) (λ bytes. refl) takes none ticks capture_config
      (λ n. "p") new_pipeline ending_calls (snapshot at_end) refl
      (tt, (tt, (tt, (tt, (tt, (inl refl, (tt, (tt, (tt, tt))))))))) refl

-- The run has one capture that is stored and one that is refused.
abbrev run_counts : List ℕ
run_counts =
    length (all_admits plain takes none ticks (start new_pipeline).0 ending_calls)
    ∷ all_refusals plain takes none ticks (start new_pipeline).0 ending_calls
    ∷ at_end.counters.persisted_records
    ∷ at_end.counters.oversized_records
    ∷ []

run_counts_lem : run_counts ≡ 1 ∷ 1 ∷ 1 ∷ 1 ∷ []
unfolding all_admits all_refusals admits refusals Clients.submit_begin Clients.submit_end
    Clients.count_admission Pipeline.new Pipeline.new_with Queue.new Assembler.new Pipeline.start
    run step close_end Pipeline.count_reason Pipeline.count_pack Pipeline.complete
    Pipeline.completion Pipeline.latch Pipeline.complete_pending Worker.emit Worker.note_persisted
    Worker.persist Worker.settle Worker.persist_answer Worker.settle_barrier Worker.appended
    Worker.handle Worker.handle_none Worker.got Worker.work_in Worker.work Clients.submit_put
    Clients.flush_step Clients.forget Clients.after_wait Clients.after_join Queue.admit Queue.put
    Queue.put_barrier Queue.get Queue.get_body Queue.close Queue.fits Assembler.until_expiry
    Writer.append Writer.write_record Writer.index_record Writer.projected_footer aligned_length
    align Writer.header_parts le_bytes Writer.new Writer.seal Writer.seal_pack Writer.body
    Writer.footer Writer.trailer_parts Writer.join Assembler.append Assembler.flush
    Assembler.sealed_pack Assembler.flush_full Assembler.append_same Assembler.append_to
    Assembler.append_current Assembler.flush_expired Assembler.flush_if_full Assembler.writer_with
    Assembler.first_append Assembler.adopt Assembler.record_scope
run_counts_lem = refl
