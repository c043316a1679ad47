-- ===== src/Queue/Calls.antt =====
-- Runs of the queue: the passes of all threads, in the order in which they take the lock.
use dmi.Base.{List, Option, [], some, ℕ, ◌++◌, ◌∷◌}
use dmi.Model.{CaptureRecord}
use dmi.Queue.{
  Queue, Item, capture, barrier, FlushBarrier, AdmissionResult, accepted, OverloadPolicy, Timeout,
  Outcome, returns, put, put_barrier, get, close,
}

pub data Call : Type 0 where
  puts : CaptureRecord → OverloadPolicy → Timeout → ℕ → ℕ → Call
  puts_barrier : FlushBarrier → Call
  gets : Timeout → ℕ → ℕ → Call
  closes : Call

unfoldable pub step : Queue → Call → Queue
step q (puts r policy timeout started now) = (put q r policy timeout started now).0
step q (puts_barrier b) = (put_barrier q b).0
step q (gets timeout started now) = (get q timeout started now).0
step q closes = close q

unfoldable pub run : Queue → List Call → Queue
run q [] = q
run q (c ∷ cs) = run (step q c) cs

-- The item that an answer of `put` or `put_barrier` puts behind the others.
abbrev pub enqueued : Item → Outcome AdmissionResult → List Item
enqueued item (returns accepted) = item ∷ []
enqueued item _ = []

-- The item that an answer of `get` takes away.
abbrev pub dequeued : Outcome (Option Item) → List Item
dequeued (returns (some item)) = item ∷ []
dequeued _ = []

-- What a call hands to the queue, and what it takes from it.
unfoldable pub pushed : Queue → Call → List Item
pushed q (puts r policy timeout started now) =
    enqueued (capture r) (put q r policy timeout started now).1
pushed q (puts_barrier b) = enqueued (barrier b) (returns (put_barrier q b).1)
pushed q _ = []

unfoldable pub taken : Queue → Call → List Item
taken q (gets timeout started now) = dequeued (get q timeout started now).1
taken q _ = []

unfoldable pub all_pushed : Queue → List Call → List Item
all_pushed q [] = []
all_pushed q (c ∷ cs) = pushed q c ++ all_pushed (step q c) cs

unfoldable pub all_taken : Queue → List Call → List Item
all_taken q [] = []
all_taken q (c ∷ cs) = taken q c ++ all_taken (step q c) cs
