-- ===== src/Queue/Admission.antt =====
-- When `put` admits a record, and how a queue is drained and closed.
use dmi.Base.{
  List, [], ap₂, arith, false, none, refl, total, true, ℕ, ◌++◌, ◌+◌, ◌<◌, ◌↔◌, ◌∙◌, ◌∷◌, ◌≡◌, ◌≤◌,
}
use dmi.Model.{CaptureRecord}
use dmi.Queue.{
  Queue, Item, capture, barrier, record_bytes, put, put_barrier, get, get_body, close, accepted,
  OverloadPolicy, Timeout, never, is_invalid, returns,
}
use dmi.Queue.Calls.{
  Call, puts, puts_barrier, gets, closes, step, run, pushed, taken, all_pushed, all_taken,
}
use dmi.Queue.Invariant.{IsAccounted, item_records, item_bytes, run-IsAccounted}

-- With a valid timeout, `put` admits a record exactly when the queue is open and the record, added
-- to the captures that are queued, keeps within both limits.
pub put_accepts_iff :
    (q : Queue) (r : CaptureRecord) (policy : OverloadPolicy) (timeout : Timeout) (started now : ℕ)
    → IsAccounted q
    → is_invalid timeout ≡ false
    → ((put q r policy timeout started now).1 ≡ returns accepted) ↔ (
        (q.is_closed ≡ false)
        × (total item_records q.items + 1 ≤ q.max_records)
        × (total item_bytes q.items + record_bytes r ≤ q.max_bytes))
unfolding put
put_accepts_iff q r policy timeout started now v h = (λ e. ground arith, λ e. ground arith)

-- One `get` for each queued item.
abbrev drain : List Item → List Call
drain [] = []
drain (item ∷ rest) = gets never 0 0 ∷ drain rest

head_step :
    (q : Queue) (item : Item) (rest : List Item)
    → q.items ≡ item ∷ rest
    → ((step q (gets never 0 0)).items ≡ rest)
      × (taken q (gets never 0 0) ≡ item ∷ [])
      × ((step q (gets never 0 0)).is_closed ≡ q.is_closed)
      × ((step q (gets never 0 0)).max_bytes ≡ q.max_bytes)
      × ((step q (gets never 0 0)).max_records ≡ q.max_records)
unfolding step taken get get_body
head_step q (capture r) rest e = ground arith
head_step q (barrier b) rest e = ground arith

record Drained (q q' : Queue) (items : List Item) (cs : List Call) : Type 0 where
  empty : q'.items ≡ []
  handed : all_taken q cs ≡ items
  closing : q'.is_closed ≡ q.is_closed
  same_bytes : q'.max_bytes ≡ q.max_bytes
  same_records : q'.max_records ≡ q.max_records

run-drain :
    (items : List Item) (q : Queue)
    → q.items ≡ items
    → Drained q (run q (drain items)) items (drain items)
unfolding run all_taken
run-drain [] q e = record {
  empty = e;
  handed = refl;
  closing = refl;
  same_bytes = refl;
  same_records = refl;
}
run-drain (item ∷ rest) q e =
    let h = head_step q item rest e in
    let d = run-drain rest (step q (gets never 0 0)) h.0 in
    record {
      empty = d.empty;
      handed = ap₂ (λ a b. a ++ b) h.1 d.handed;
      closing = d.closing ∙ h.2;
      same_bytes = d.same_bytes ∙ h.3;
      same_records = d.same_records ∙ h.4;
    }

-- A producer that waits for room is not stuck: once the consumer has taken what was queued, an open
-- queue with room for one record admits every record that fits its byte limit.
pub drain_then_put :
    (q : Queue) (r : CaptureRecord) (policy : OverloadPolicy) (started now : ℕ)
    → IsAccounted q
    → q.is_closed ≡ false
    → 0 < q.max_records
    → record_bytes r ≤ q.max_bytes
    → (put (run q (drain q.items)) r policy never started now).1 ≡ returns accepted
drain_then_put q r policy started now v opened room small =
    let d = run-drain q.items q refl in
    (put_accepts_iff (run q (drain q.items)) r policy never started now
        (run-IsAccounted q (drain q.items) v) refl).1
      (
        d.closing ∙ opened,
        rw (d.empty, d.same_records) (omega arith),
        rw (d.empty, d.same_bytes) (omega arith),
      )

closed_step :
    (q : Queue) (c : Call) → q.is_closed ≡ true → (pushed q c ≡ []) × ((step q c).is_closed ≡ true)
unfolding step pushed put put_barrier get get_body close
closed_step q (puts r policy timeout started now) h = ground arith
closed_step q (puts_barrier b) h = ground arith
closed_step q (gets timeout started now) h = ground arith
closed_step q closes h = ground arith

closed_run :
    (q : Queue) (cs : List Call)
    → q.is_closed ≡ true
    → (all_pushed q cs ≡ []) × ((run q cs).is_closed ≡ true)
unfolding run all_pushed
closed_run q [] h = (refl, h)
closed_run q (c ∷ cs) h =
    let s = closed_step q c h in
    let rest = closed_run (step q c) cs s.1 in (ap₂ (λ a b. a ++ b) s.0 rest.0, rest.1)

-- `close` is final: no later call puts anything in and the queue stays closed. The consumer then
-- gets what was queued, in order, and after that `get` answers `None` at once.
pub close_drains :
    (q : Queue) (cs : List Call) (timeout : Timeout) (started now : ℕ)
    → is_invalid timeout ≡ false
    → (all_pushed (close q) cs ≡ [])
      × ((run (close q) cs).is_closed ≡ true)
      × (all_taken (close q) (drain q.items) ≡ q.items)
      × ((get (run (close q) (drain q.items)) timeout started now).1 ≡ returns none)
unfolding close get get_body
close_drains q cs timeout started now h =
    let c = closed_run (close q) cs refl in
    let d = run-drain q.items (close q) refl in
    (c.0, c.1, d.handed, ground (arith, d.empty, d.closing))
