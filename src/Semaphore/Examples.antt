-- ===== src/Semaphore/Examples.antt =====
-- Runs of the theorems on the semaphore at concrete inputs.
use sora_transport.Prelude.{ℕ, ◌+◌, ◌≡◌, refl, List, [], ◌∷◌, ◌++◌, arith}
use sora_transport.Semaphore.{Request, Semaphore, refused, init, acquire, release, cancel}
use sora_transport.Semaphore.Inv.{
  Inv, Reach, start, step, acquires, permits_granted, Reach-Inv, release_oversize,
}
use sora_transport.Semaphore.Order.{
  Call, run, served, arrivals, turned_away, run_order, cancel_refuses,
}
use sora_transport.Semaphore.Order

abbrev two : Request
two = record { handler = 1; permits = 2 }

abbrev nine : Request
nine = record { handler = 2; permits = 9 }

abbrev taken : Semaphore
taken = (acquire two (init 3)).0

abbrev held_two : ℕ
held_two = 0 + permits_granted (acquire two (init 3)).1

abbrev taken_reached : Reach 3 taken held_two
taken_reached = step start (acquires two)

Reach-Inv_example : Inv 3 held_two taken
Reach-Inv_example = Reach-Inv 3 taken_reached

abbrev blocked : Semaphore
blocked = (acquire nine taken).0

abbrev held_still : ℕ
held_still = held_two + permits_granted (acquire nine taken).1

release_oversize_example :
    ((release 2 blocked).0.waiters ≡ nine ∷ []) × ((release 2 blocked).1 ≡ [])
unfolding acquire init
release_oversize_example =
    release_oversize 3 {s = blocked} {held = held_still} nine [] 2
      (step taken_reached (acquires nine)) refl (omega arith) (omega arith)

abbrev calls : List Call
calls = Order.acquires two ∷ Order.acquires nine ∷ Order.acquires two ∷ Order.releases 2 ∷ []

run_order_example : served (run calls (init 3)).1 ++ (run calls (init 3)).0.waiters ≡ arrivals calls
run_order_example = run_order 3 calls (omega arith, (omega arith, (omega arith, (tt, tt))))

cancel_refuses_example :
    (turned_away (cancel blocked).1 ≡ blocked.waiters)
    × (served (cancel blocked).1 ≡ [])
    × (acquire two (cancel blocked).0 ≡ ((cancel blocked).0, refused two ∷ []))
    × ((cancel blocked).0.waiters ≡ [])
    × ((cancel blocked).0.available ≡ blocked.available)
unfolding acquire init
cancel_refuses_example = cancel_refuses blocked two refl
