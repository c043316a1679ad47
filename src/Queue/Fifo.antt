-- ===== src/Queue/Fifo.antt =====
-- The queue delivers in order and loses nothing; when it refuses; and how it ends.
use dmi.Base.{List, [], ap, append-nil, append_assoc, arith, sym, ◌++◌, ◌∙◌, ◌∷◌, ◌≡◌}
use dmi.Queue.{Queue, put, put_barrier, get, get_body, close}
use dmi.Queue.Calls.{
  Call, puts, puts_barrier, gets, closes, step, run, pushed, taken, all_pushed, all_taken,
}

step_items : (q : Queue) (c : Call) → q.items ++ pushed q c ≡ taken q c ++ (step q c).items
unfolding step pushed taken put put_barrier get get_body close
step_items q (puts r policy timeout started now) = ground (arith, append-nil q.items)
step_items q (puts_barrier b) = ground (arith, append-nil q.items)
step_items q (gets timeout started now) = ground (arith, append-nil q.items)
step_items q closes = append-nil q.items

-- Whatever the calls, what the queue held and what they put into it, in that order, is what `get`
-- handed out followed by what is still queued: nothing is lost, repeated or reordered.
pub run_fifo :
    (q : Queue) (cs : List Call) → q.items ++ all_pushed q cs ≡ all_taken q cs ++ (run q cs).items
unfolding run all_pushed all_taken
run_fifo q [] = append-nil q.items
run_fifo q (c ∷ cs) =
    sym (append_assoc q.items (pushed q c) (all_pushed (step q c) cs))
    ∙ ap (λ l. l ++ all_pushed (step q c) cs) (step_items q c)
    ∙ append_assoc (taken q c) (step q c).items (all_pushed (step q c) cs)
    ∙ ap (λ l. taken q c ++ l) (run_fifo (step q c) cs)
    ∙ sym (append_assoc (taken q c) (all_taken (step q c) cs) (run (step q c) cs).items)
