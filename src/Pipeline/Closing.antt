-- ===== src/Pipeline/Closing.antt =====
-- `close`, `is_running`, `raise_if_failed` and `snapshot` of `HostCapturePipeline`.
use dmi.Base.{
  ℕ, ◌+◌, ◌≡◌, refl, Bool, true, false, not, ◌&&◌, Option, none, some, List, if◌then◌else◌, is_some,
  if_cases, String, length, arith, Omits, length-Omits,
}
use dmi.Model.{CaptureRecord}
use dmi.Queue
use dmi.Histogram.{Histogram}
use dmi.Pack.Writer.{Codec}
use dmi.Assembler.{ReadyPack}
use dmi.Assembler.Contents.{Emits}
use dmi.Pipeline.{
  Pipeline, PipelineEvent, PipelineConfig, Counters, Phase, at_get, after_none, holding, latched,
  closing, ended, new, start,
}
use dmi.Pipeline.Runs.{Call, run, all_admits, all_refusals, AllTimely}
use dmi.Pipeline.Completeness.{ended_stores_all}

-- `counters` are the first fifteen fields and the four after them.
pub record PipelineSnapshot : Type 0 where
  pub counters : Counters
  pub queue_records : ℕ
  pub queue_bytes : ℕ
  pub queue_peak_records : ℕ
  pub queue_peak_bytes : ℕ
  pub admission_duration : Histogram
  pub persist_duration : Histogram

unfoldable pub snapshot : Pipeline → PipelineSnapshot
snapshot p = record {
  counters = p.counters;
  queue_records = p.queue.records;
  queue_bytes = p.queue.bytes;
  queue_peak_records = p.queue.peak_records;
  queue_peak_bytes = p.queue.peak_bytes;
  admission_duration = p.admission_duration;
  persist_duration = p.persist_duration;
}

-- `thread.is_alive()`, once it is started.
abbrev pub is_alive : Phase → Bool
is_alive ended = false
is_alive _ = true

unfoldable pub is_running : Pipeline → Bool
is_running p = p.started && is_alive p.phase && not (is_some p.error) && not p.queue.is_closed

-- Whether it raises.
unfoldable pub raise_if_failed : Pipeline → Bool
raise_if_failed p = is_some p.error

-- How `close` ends: the `RuntimeError`, the `TimeoutError`, the `PipelineFailedError`, or an answer.
pub data Closed : Type 0 where
  never_started still_alive has_failed : Closed
  stopped : PipelineSnapshot → Closed

unfoldable pub close_begin : Pipeline → Pipeline
close_begin p = record p { queue = Queue.close p.queue }

-- After the join, which a timeout may end early.
unfoldable pub close_end : Pipeline → Closed
unfolding snapshot
close_end p =
    if not p.started
    then never_started
    else if is_alive p.phase
    then still_alive
    else if is_some p.error
    then has_failed
    else stopped (snapshot p)

alive-ended : (ph : Phase) → is_alive ph ≡ false → ph ≡ ended
alive-ended ended h = refl
alive-ended at_get h = cc
alive-ended after_none h = cc
alive-ended (holding item) h = cc
alive-ended (latched pending) h = cc
alive-ended (closing pending) h = cc

is_some-none {ℓ} : {A : Type ℓ} (o : Option A) → is_some o ≡ false → o ≡ none
is_some-none none h = refl
is_some-none (some a) h = cc

-- An answer of `close` comes from a worker that has ended without an error.
close_end-stopped :
    (p : Pipeline) (s : PipelineSnapshot)
    → close_end p ≡ stopped s
    → (p.phase ≡ ended) × (p.error ≡ none) × (snapshot p ≡ s)
unfolding close_end
close_end-stopped p s =
    let P : Closed → Type 0 =
      λ x. (x ≡ stopped s → (p.phase ≡ ended) × (p.error ≡ none) × (snapshot p ≡ s)) in
    if_cases P (not p.started) (λ off h. cc)
      λ on.
        if_cases P (is_alive p.phase) (λ alive h. cc)
          λ over.
            if_cases P (is_some p.error) (λ bad h. cc)
              λ fine h. (alive-ended p.phase over, is_some-none p.error fine, cc)

module _ (c : Codec) (uuid_16 : (id : String) → length (c.uuid_bytes id) ≡ 16)
    (sha_32 : (bytes : List ℕ) → length (c.sha256 bytes) ≡ 32)
    (sink : List ReadyPack → ReadyPack → Bool) (callback : Option (PipelineEvent → Bool))
    (clock_ns : ℕ → ℕ) where
  -- A new pipeline is started; calls of `submit` in their parts, barriers, closes and steps of the
  -- worker follow in any order, where no record is refused by the assembler while its open pack has
  -- expired. When `close` answers: the sink has the captures `kept`, in packs of one scope and of at
  -- most `max_pack_records`, and `persisted_records` of the answer is their number; they are those
  -- that the queue took, in order, but for `left_out` of them; `oversized_records` and
  -- `duplicate_records` count these and the records that `submit` answered to be too large; and so
  -- the captures that the queue took and the records that `submit` refused as too large are together
  -- as many as are counted as persisted, oversized or duplicate.
  pub closed_snapshot_balances :
      (g : PipelineConfig) (factory : ℕ → String) (p : Pipeline) (calls : List Call)
      (s : PipelineSnapshot)
      → new g factory ≡ some p
      → AllTimely c sink callback clock_ns (start p).0 calls
      → close_end (run c sink callback clock_ns (start p).0 calls) ≡ stopped s
      → (kept : List CaptureRecord) × (left_out : ℕ) × Emits c g.max_pack_records
          (run c sink callback clock_ns (start p).0 calls).stored
          kept
        × (s.counters.persisted_records ≡ length kept)
        × Omits left_out (all_admits c sink callback clock_ns (start p).0 calls) kept
        × (s.counters.oversized_records + s.counters.duplicate_records
            ≡ left_out + all_refusals c sink callback clock_ns (start p).0 calls)
        × (length (all_admits c sink callback clock_ns (start p).0 calls)
              + all_refusals c sink callback clock_ns (start p).0 calls
            ≡ s.counters.persisted_records + s.counters.oversized_records
              + s.counters.duplicate_records)
  unfolding snapshot
  closed_snapshot_balances g factory p calls s made timely h =
      let q = run c sink callback clock_ns (start p).0 calls in
      let (over, fine, same) = close_end-stopped q s h in
      let b =
        ended_stores_all c uuid_16 sha_32 sink callback clock_ns g factory p calls made timely fine
          over in
      rw (← same) (
        b.kept,
        b.left_out,
        b.in_store,
        b.counted,
        b.order,
        b.dropped,
        omega (arith, length-Omits b.left_out _ b.kept b.order, b.counted, b.dropped),
      )
