-- ===== src/Pipeline/Runs.antt =====
-- The worker beside the threads that submit records, put barriers into the queue and close it: a run
-- is the steps of all of them in the order in which they take a lock. A call of `submit` begins, makes
-- passes of `put` until one answers, and ends with the answer.
use dmi.Base.{ℕ, ◌+◌, ◌≡◌, ◌⊎◌, Bool, Option, List, [], ◌∷◌, ◌++◌, false}
use dmi.Model.{CaptureRecord}
use dmi.Queue.{Queue, AdmissionResult, too_large, FlushBarrier, Item, capture, barrier}
use dmi.Queue
use dmi.Queue.Captures.{accepted_captures, item_captures}
use dmi.Pack.Writer.{Codec}
use dmi.Assembler.{ReadyPack, Answer, returns, is_expired}
use dmi.Assembler
use dmi.Pipeline.{Pipeline, PipelineEvent, Phase, holding}
use dmi.Pipeline.Worker.{work}
use dmi.Pipeline.Clients.{Entry, answers, submit_begin, submit_put, submit_end}

pub data Call : Type 0 where
  begins : CaptureRecord → Call
  puts : CaptureRecord → ℕ → ℕ → Call
  ends : CaptureRecord → ℕ → AdmissionResult → Call
  puts_barrier : FlushBarrier → Call
  closes : Call
  works : ℕ → ℕ → Call

-- The capture that a call puts into the queue.
unfoldable pub admits : Pipeline → Call → List CaptureRecord
admits p (puts r entered now) = accepted_captures r (submit_put p r entered now).1
admits p _ = []

-- An answer that the record is too large, before or after the queue was asked.
abbrev pub refusal : AdmissionResult → ℕ
refusal too_large = 1
refusal _ = 0

abbrev pub entry_refusal : Entry → ℕ
entry_refusal (answers result) = refusal result
entry_refusal _ = 0

-- The capture that the worker has taken and not yet dealt with.
abbrev pub held : Phase → List CaptureRecord
held (holding item) = item_captures item
held _ = []

module _ (c : Codec) (sink : List ReadyPack → ReadyPack → Bool)
    (callback : Option (PipelineEvent → Bool)) (clock_ns : ℕ → ℕ) where
  unfoldable pub step : Pipeline → Call → Pipeline
  step p (begins r) = (submit_begin clock_ns p r).0
  step p (puts r entered now) = (submit_put p r entered now).0
  step p (ends r before result) = submit_end clock_ns p r before result
  step p (puts_barrier b) = record p { queue = (Queue.put_barrier p.queue b).0 }
  step p closes = record p { queue = Queue.close p.queue }
  step p (works entered now) = work c sink callback clock_ns p entered now

  unfoldable pub run : Pipeline → List Call → Pipeline
  run p [] = p
  run p (call ∷ calls) = run (step p call) calls

  -- The captures that the queue takes in a run, in order.
  unfoldable pub all_admits : Pipeline → List Call → List CaptureRecord
  all_admits p [] = []
  all_admits p (call ∷ calls) = admits p call ++ all_admits (step p call) calls

  -- The records that calls of `submit` answer to be too large.
  unfoldable pub refusals : Pipeline → Call → ℕ
  refusals p (begins r) = entry_refusal (submit_begin clock_ns p r).1
  refusals p (ends r before result) = refusal result
  refusals p _ = 0

  unfoldable pub all_refusals : Pipeline → List Call → ℕ
  all_refusals p [] = 0
  all_refusals p (call ∷ calls) = refusals p call + all_refusals (step p call) calls

  -- When the worker hands a capture to the assembler, the open pack has not expired or the capture
  -- is not refused.
  abbrev pub TimelyIn : Phase → Pipeline → Type 0
  TimelyIn (holding (capture r)) p =
      (is_expired c p.assembler p.assembler.current (clock_ns p.readings) ≡ false)
      ⊎ ((packs : List ReadyPack) × ((Assembler.append c p.assembler r (clock_ns p.readings)).1
            ≡ returns packs))
  TimelyIn _ p = Unit

  abbrev pub TimelyStep : Pipeline → Call → Type 0
  TimelyStep p (works entered now) = TimelyIn p.phase p
  TimelyStep p _ = Unit

  abbrev pub AllTimely : Pipeline → List Call → Type 0
  AllTimely p [] = Unit
  AllTimely p (call ∷ calls) = TimelyStep p call × AllTimely (step p call) calls
