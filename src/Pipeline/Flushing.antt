-- ===== src/Pipeline/Flushing.antt =====
-- A call of `flush` beside the worker and the threads that submit records and close: their steps in the
-- order in which they happen. One call at a time holds `_flush_lock`.
use dmi.Base.{ℕ, Bool, Option, List, [], ◌∷◌}
use dmi.Pack.Writer.{Codec}
use dmi.Assembler.{ReadyPack}
use dmi.Pipeline.{Pipeline, PipelineEvent}
use dmi.Pipeline.Clients.{Waiter, asks, flushed, failed, flush_step}
use dmi.Pipeline.Runs.{Call, step}

-- A step of the call of `flush`, the next call, or a step of another thread.
pub data Move : Type 0 where
  flushes : Bool → Move
  calls : ℕ → Move
  acts : Call → Move

-- A call that gets the lock when the one before it is over.
abbrev pub next_call : Waiter → ℕ → Waiter
next_call (flushed done) target = asks target
next_call failed target = asks target
next_call w target = w

module _ (c : Codec) (sink : List ReadyPack → ReadyPack → Bool)
    (callback : Option (PipelineEvent → Bool)) (clock_ns : ℕ → ℕ) where
  unfoldable pub move : Pipeline × Waiter → Move → Pipeline × Waiter
  unfolding flush_step
  move (p, w) (flushes late) = flush_step p w late
  move (p, w) (calls target) = (p, next_call w target)
  move (p, w) (acts call) = (step c sink callback clock_ns p call, w)

  unfoldable pub moves : Pipeline × Waiter → List Move → Pipeline × Waiter
  unfolding move
  moves x [] = x
  moves x (m ∷ ms) = moves (move x m) ms
