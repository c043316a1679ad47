-- ===== src/Queue.antt =====
-- `BoundedRecordQueue` of src/dmi/storage/capture/pipeline.py.
-- Every method body runs under one condition's lock, so a run of the queue is a sequence of passes
-- through these bodies. A pass that calls `wait` changes nothing and is made again later: it is the
-- outcome `blocks`. Times are natural numbers of one unit.
pub mod Calls
pub mod Invariant
pub mod Fifo
pub mod Admission
pub mod Captures
use dmi.Base.{
  Bool, List, Option, [], false, if◌then◌else◌, leb, length, ltb, max, none, some, true, ℕ, ◌&&◌,
  ◌++◌, ◌+◌, ◌-◌, ◌==◌, ◌||◌, ◌∷◌,
}
use dmi.Model.{CaptureRecord}

pub data AdmissionResult : Type 0 where
  accepted dropped timed_out too_large closed : AdmissionResult

pub data OverloadPolicy : Type 0 where
  block drop_newest : OverloadPolicy

-- A `timeout` argument: `None`, one that the check refuses, or a span.
pub data Timeout : Type 0 where
  never : Timeout
  invalid : Timeout
  after : ℕ → Timeout

-- `_FlushBarrier`, by its identity; what it shares with its waiter is in the pipeline's state.
pub record FlushBarrier : Type 0 where
  pub token : ℕ
  pub target_admitted : ℕ

pub data Item : Type 0 where
  capture : CaptureRecord → Item
  barrier : FlushBarrier → Item

pub record Queue : Type 0 where
  pub max_records : ℕ
  pub max_bytes : ℕ
  pub items : List Item
  pub records : ℕ
  pub bytes : ℕ
  pub peak_records : ℕ
  pub peak_bytes : ℕ
  pub is_closed : Bool

-- What one pass through a method does.
pub data Outcome {ℓ} (A : Type ℓ) : Type ℓ where
  returns : A → Outcome A
  blocks : Outcome A
  value_error : Outcome A

-- `__init__`; `none` is the `ValueError`.
unfoldable pub new : ℕ → ℕ → Option Queue
new max_records max_bytes =
    if max_records == 0 || max_bytes == 0
    then none
    else some (record {
      max_records = max_records;
      max_bytes = max_bytes;
      items = [];
      records = 0;
      bytes = 0;
      peak_records = 0;
      peak_bytes = 0;
      is_closed = false;
    })

-- `deadline - time.monotonic() <= 0`
abbrev pub is_past : Timeout → ℕ → ℕ → Bool
is_past never started now = false
is_past invalid started now = false
is_past (after span) started now = leb (started + span) now

abbrev pub is_invalid : Timeout → Bool
is_invalid invalid = true
is_invalid _ = false

abbrev pub drops : OverloadPolicy → Bool
drops block = false
drops drop_newest = true

unfoldable pub fits : Queue → ℕ → Bool
fits q record_bytes = ltb q.records q.max_records && leb (q.bytes + record_bytes) q.max_bytes

abbrev pub record_bytes : CaptureRecord → ℕ
record_bytes r = length r.payload

-- The branch of `put` that appends.
unfoldable pub admit : Queue → CaptureRecord → Queue
admit q r = record q {
  items = q.items ++ capture r ∷ [];
  records = q.records + 1;
  bytes = q.bytes + record_bytes r;
  peak_records = max q.peak_records (q.records + 1);
  peak_bytes = max q.peak_bytes (q.bytes + record_bytes r);
}

unfoldable pub put :
    Queue → CaptureRecord → OverloadPolicy → Timeout → ℕ → ℕ → Queue × Outcome AdmissionResult
unfolding admit fits
put q r policy timeout started now =
    if is_invalid timeout
    then (q, value_error)
    else if ltb q.max_bytes (record_bytes r)
    then (q, returns too_large)
    else if q.is_closed
    then (q, returns closed)
    else if fits q (record_bytes r)
    then (admit q r, returns accepted)
    else if drops policy
    then (q, returns dropped)
    else if is_past timeout started now
    then (q, returns timed_out)
    else (q, blocks)

unfoldable pub put_barrier : Queue → FlushBarrier → Queue × AdmissionResult
put_barrier q b =
    if q.is_closed then (q, closed) else (record q { items = q.items ++ barrier b ∷ [] }, accepted)

-- The counters after `popleft`.
pub popped : Queue → Item → List Item → Queue
popped q (capture r) rest = record q {
  items = rest;
  records = q.records - 1;
  bytes = q.bytes - record_bytes r;
}
popped q (barrier b) rest = record q { items = rest }

unfoldable pub get_body : Queue → List Item → Timeout → ℕ → ℕ → Queue × Outcome (Option Item)
unfolding popped
get_body q [] timeout started now =
    if q.is_closed
    then (q, returns none)
    else if is_past timeout started now
    then (q, returns none)
    else (q, blocks)
get_body q (item ∷ rest) timeout started now = (popped q item rest, returns (some item))

unfoldable pub get : Queue → Timeout → ℕ → ℕ → Queue × Outcome (Option Item)
unfolding get_body
get q timeout started now =
    if is_invalid timeout then (q, value_error) else get_body q q.items timeout started now

unfoldable pub close : Queue → Queue
close q = record q { is_closed = true }
