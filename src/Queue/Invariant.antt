-- ===== src/Queue/Invariant.antt =====
-- What the counters of the queue say about its items, after any calls.
use dmi.Base.{List, [], arith, some, total, total-append, ℕ, ◌∷◌, ◌≡◌, ◌≤◌}
use dmi.Queue.{
  Queue, Item, capture, barrier, new, record_bytes, put, put_barrier, get, get_body, close,
}
use dmi.Queue.Calls.{Call, puts, puts_barrier, gets, closes, step, run}

-- A barrier takes no capacity.
abbrev pub item_records : Item → ℕ
item_records (capture r) = 1
item_records (barrier b) = 0

abbrev pub item_bytes : Item → ℕ
item_bytes (capture r) = record_bytes r
item_bytes (barrier b) = 0

pub record IsAccounted (q : Queue) : Type 0 where
  pub records_exact : q.records ≡ total item_records q.items
  pub bytes_exact : q.bytes ≡ total item_bytes q.items
  pub records_peak : q.records ≤ q.peak_records
  pub bytes_peak : q.bytes ≤ q.peak_bytes
  pub records_bounded : q.peak_records ≤ q.max_records
  pub bytes_bounded : q.peak_bytes ≤ q.max_bytes

new-IsAccounted : (n b : ℕ) (q : Queue) → new n b ≡ some q → IsAccounted q
unfolding new
new-IsAccounted n b q h = ground arith

step-IsAccounted : (q : Queue) (c : Call) → IsAccounted q → IsAccounted (step q c)
unfolding step put put_barrier get get_body close
step-IsAccounted q (puts r policy timeout started now) v = ground (
  arith,
  total-append item_records q.items (capture r ∷ []),
  total-append item_bytes q.items (capture r ∷ []),
)
step-IsAccounted q (puts_barrier b) v = ground (
  arith,
  total-append item_records q.items (barrier b ∷ []),
  total-append item_bytes q.items (barrier b ∷ []),
)
step-IsAccounted q (gets timeout started now) v = ground arith
step-IsAccounted q closes v = ground arith

pub run-IsAccounted : (q : Queue) (cs : List Call) → IsAccounted q → IsAccounted (run q cs)
unfolding run
run-IsAccounted q [] v = v
run-IsAccounted q (c ∷ cs) v = run-IsAccounted (step q c) cs (step-IsAccounted q c v)

-- After any calls on a new queue, in any order and with any clock readings, `records` and `bytes`
-- are the number and the bytes of the captures that are queued, and they and their peaks stay
-- within the limits; barriers count for nothing.
pub run-new-IsAccounted :
    (max_records max_bytes : ℕ) (q : Queue) (cs : List Call)
    → new max_records max_bytes ≡ some q
    → IsAccounted (run q cs)
run-new-IsAccounted max_records max_bytes q cs h =
    run-IsAccounted q cs (new-IsAccounted max_records max_bytes q h)
