-- ===== src/Queue/Captures.antt =====
-- The captures that the queue holds, and how `put` and `get` change that.
use dmi.Base.{
  ℕ, ◌≡◌, refl, sym, ap, ◌∙◌, true, Option, none, some, List, [], ◌∷◌, ◌++◌, append-nil, arith,
  if_intro, ltb, total,
}
use dmi.Model.{CaptureRecord}
use dmi.Queue.{
  Queue, AdmissionResult, accepted, FlushBarrier, Item, capture, barrier, Timeout, Outcome, put,
  put_barrier, get, get_body, close, is_past, is_invalid, OverloadPolicy, admit, fits, drops,
  popped, record_bytes,
}
use dmi.Queue.Calls.{puts, puts_barrier, gets, closes, run, step}
use dmi.Queue.Invariant.{IsAccounted, item_records, run-IsAccounted}

-- The captures that an answer of `put` has put in.
abbrev pub accepted_captures : CaptureRecord → Outcome AdmissionResult → List CaptureRecord
accepted_captures r (Outcome.returns accepted) = r ∷ []
accepted_captures r _ = []

abbrev pub item_captures : Item → List CaptureRecord
item_captures (capture r) = r ∷ []
item_captures (barrier b) = []

abbrev pub captures_of : List Item → List CaptureRecord
captures_of [] = []
captures_of (item ∷ items) = item_captures item ++ captures_of items

captures_of-append : (xs ys : List Item) → captures_of (xs ++ ys) ≡ captures_of xs ++ captures_of ys
captures_of-append [] ys = refl
captures_of-append (capture r ∷ xs) ys = ap (λ l. r ∷ l) (captures_of-append xs ys)
captures_of-append (barrier b ∷ xs) ys = captures_of-append xs ys

-- The captures among the items that are queued.
abbrev pub queued : Queue → List CaptureRecord
queued q = captures_of q.items

pub no_captures : (items : List Item) → total item_records items ≡ 0 → captures_of items ≡ []
no_captures [] h = refl
no_captures (capture r ∷ items) h = absurd (omega (arith, h))
no_captures (barrier b ∷ items) h = no_captures items (omega (arith, h))

pub put-queued :
    (q : Queue) (r : CaptureRecord) (policy : OverloadPolicy) (timeout : Timeout) (entered now : ℕ)
    → queued (put q r policy timeout entered now).0
      ≡ queued q ++ accepted_captures r (put q r policy timeout entered now).1
unfolding put admit
put-queued q r policy timeout entered now =
    let P : Queue × Outcome AdmissionResult → Type 0 =
      λ x. (queued x.0 ≡ queued q ++ accepted_captures r x.1) in
    let same : queued q ≡ queued q ++ [] = sym (append-nil (queued q)) in
    if_intro P (is_invalid timeout) same (
      if_intro P (ltb q.max_bytes (record_bytes r)) same (
        if_intro P q.is_closed same (
          if_intro P (fits q (record_bytes r)) (captures_of-append q.items (capture r ∷ []))
            (if_intro P (drops policy) same (if_intro P (is_past timeout entered now) same same)))))

pub put_barrier-queued : (q : Queue) (b : FlushBarrier) → queued (put_barrier q b).0 ≡ queued q
unfolding put_barrier
put_barrier-queued q b =
    if_intro (λ (x : Queue × AdmissionResult). queued x.0 ≡ queued q) q.is_closed refl
      (captures_of-append q.items (barrier b ∷ []) ∙ append-nil (queued q))

-- What an answer of `get` says of the queue.
abbrev pub Takes : Queue → Queue × Outcome (Option Item) → Type 0
Takes q (q', Outcome.returns none) = queued q' ≡ queued q
Takes q (q', Outcome.returns (some item)) = queued q ≡ item_captures item ++ queued q'
Takes q (q', Outcome.blocks) = Unit
Takes q (q', Outcome.value_error) = Unit

get_body-Takes :
    (q : Queue) (items : List Item) (timeout : Timeout) (entered now : ℕ)
    → q.items ≡ items
    → Takes q (get_body q items timeout entered now)
unfolding get_body popped
get_body-Takes q [] timeout entered now e =
    if_intro (Takes q) q.is_closed refl (if_intro (Takes q) (is_past timeout entered now) refl tt)
get_body-Takes q (capture r ∷ rest) timeout entered now e = ap captures_of e
get_body-Takes q (barrier b ∷ rest) timeout entered now e = ap captures_of e

pub get-Takes :
    (q : Queue) (timeout : Timeout) (entered now : ℕ) → Takes q (get q timeout entered now)
unfolding get
get-Takes q timeout entered now =
    if_intro (Takes q) (is_invalid timeout) tt (get_body-Takes q q.items timeout entered now refl)

-- A closed queue stays closed and admits nothing.
pub put-closed :
    (q : Queue) (r : CaptureRecord) (policy : OverloadPolicy) (timeout : Timeout) (entered now : ℕ)
    → q.is_closed ≡ true
    → ((put q r policy timeout entered now).0.is_closed ≡ true)
      × (accepted_captures r (put q r policy timeout entered now).1 ≡ [])
unfolding put
put-closed q r policy timeout entered now h = ground arith

pub put_barrier-closed :
    (q : Queue) (b : FlushBarrier) → q.is_closed ≡ true → (put_barrier q b).0.is_closed ≡ true
unfolding put_barrier
put_barrier-closed q b h = ground arith

-- The counters stay right under each call.
pub put-IsAccounted :
    (q : Queue) (r : CaptureRecord) (policy : OverloadPolicy) (timeout : Timeout) (entered now : ℕ)
    → IsAccounted q
    → IsAccounted (put q r policy timeout entered now).0
unfolding run step
put-IsAccounted q r policy timeout entered now v =
    run-IsAccounted q (puts r policy timeout entered now ∷ []) v

pub put_barrier-IsAccounted :
    (q : Queue) (b : FlushBarrier) → IsAccounted q → IsAccounted (put_barrier q b).0
unfolding run step
put_barrier-IsAccounted q b v = run-IsAccounted q (puts_barrier b ∷ []) v

pub get-IsAccounted :
    (q : Queue) (timeout : Timeout) (entered now : ℕ)
    → IsAccounted q
    → IsAccounted (get q timeout entered now).0
unfolding run step
get-IsAccounted q timeout entered now v = run-IsAccounted q (gets timeout entered now ∷ []) v

pub close-IsAccounted : (q : Queue) → IsAccounted q → IsAccounted (close q)
unfolding run step
close-IsAccounted q v = run-IsAccounted q (closes ∷ []) v
