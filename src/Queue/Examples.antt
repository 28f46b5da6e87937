-- ===== src/Queue/Examples.antt =====
-- Runs of the theorems on the queue at concrete inputs.
use sora_transport.Prelude.{ℕ, ◌≡◌, refl, true, none, some, List, [], ◌∷◌, ◌++◌, arith}
use sora_transport.Prelude.Result.{err}
use sora_transport.Queue.{
  Queue, closed, push_failed, pop_failed, queue_abandoned, queue_closed, init, async_push,
  async_pop, push_ready, push_locked, pop_ready, pop_locked, close, abandon, push_opened,
}
use sora_transport.Queue.Sections.{Reach, start, step, pushes_async, closes, Reach_bounded}
use sora_transport.Queue.Sections
use sora_transport.Queue.Calls.{Call, async_pushes, async_pops, pushes, pops, view, values}
use sora_transport.Queue.Fifo.{run, run_in_order}
use sora_transport.Queue.Ending.{Tells, refusals, endings, close-Tells, abandon-Tells}

abbrev one_in : Queue ℕ
one_in = (async_push 1 10 (init 1)).0

abbrev one_waits : Queue ℕ
one_waits = (async_push 2 20 one_in).0

Reach_bounded_example : Sections.Inv (close one_waits).0
Reach_bounded_example =
    Reach_bounded 1 (step (step (step start (pushes_async 1 10)) (pushes_async 2 20)) closes)

abbrev calls : List (Call ℕ)
calls = async_pushes 1 10 ∷ async_pushes 2 20 ∷ pops ∷ async_pops 3 ∷ async_pops 4 ∷ pushes 30 ∷ []

run_in_order_example : let e = run calls (init 1) in e.handed_out ++ view e.after ≡ e.taken_in
run_in_order_example = run_in_order 1 calls (omega arith)

close-Tells_example :
    Tells
      (close one_waits).1
      (refusals queue_closed one_waits.pending_pushes)
      (endings none one_waits.pending_pops)
      (values one_waits.pending_pushes)
    × ((close one_waits).0.items ≡ one_waits.items)
    × (close (close one_waits).0 ≡ ((close one_waits).0, []))
unfolding async_push push_opened init
close-Tells_example = close-Tells one_waits refl

abandon-Tells_example :
    Tells
      (abandon one_waits).1
      (refusals queue_abandoned one_waits.pending_pushes)
      (endings (some queue_abandoned) one_waits.pending_pops)
      (one_waits.items ++ values one_waits.pending_pushes)
    × (async_push 5 50 (abandon one_waits).0
        ≡ ((abandon one_waits).0, push_failed 5 queue_abandoned ∷ []))
    × (async_pop 5 (abandon one_waits).0
        ≡ ((abandon one_waits).0, pop_failed 5 queue_abandoned ∷ []))
    × (push_ready (abandon one_waits).0 ≡ true)
    × (push_locked 50 (abandon one_waits).0 ≡ err queue_abandoned)
    × (pop_ready (abandon one_waits).0 ≡ true)
    × (pop_locked (abandon one_waits).0 ≡ err queue_abandoned)
    × (abandon (abandon one_waits).0 ≡ ((abandon one_waits).0, []))
unfolding async_push push_opened init
abandon-Tells_example = abandon-Tells one_waits 5 50 (λ e. cc)

abbrev ended : Queue ℕ
ended = record (init 4) { items = 10 ∷ 20 ∷ []; status = closed }
