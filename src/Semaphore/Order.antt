-- ===== src/Semaphore/Order.antt =====
-- Requests are served in the order in which they came.
use sora_transport.Prelude.{
  ℕ, ◌+◌, ◌-◌, ◌<◌, ◌≡◌, refl, sym, ap, false, List, [], ◌∷◌, ◌++◌, map, All, arith, append-nil,
  append_assoc,
}
use sora_transport.Semaphore.{
  Request, Semaphore, Completion, granted, refused, init, acquire, drain, release, cancel,
}

-- The requests that completions grant, in order.
abbrev pub served : List Completion → List Request
served [] = []
served (granted r ∷ cs) = r ∷ served cs
served (refused r ∷ cs) = served cs

abbrev pub turned_away : List Completion → List Request
turned_away [] = []
turned_away (granted r ∷ cs) = turned_away cs
turned_away (refused r ∷ cs) = r ∷ turned_away cs

served-map : (rs : List Request) → served (map granted rs) ≡ rs
served-map [] = refl
served-map (r ∷ rs) = ap (◌∷◌ r) (served-map rs)

served-refused : (rs : List Request) → served (map refused rs) ≡ []
served-refused [] = refl
served-refused (r ∷ rs) = served-refused rs

turned_away-map : (rs : List Request) → turned_away (map refused rs) ≡ rs
turned_away-map [] = refl
turned_away-map (r ∷ rs) = ap (◌∷◌ r) (turned_away-map rs)

drain-append : (n : ℕ) (rs : List Request) → (drain n rs).ready ++ (drain n rs).rest ≡ rs
unfolding drain
drain-append n [] = refl
drain-append n (r ∷ rs) = ground (arith, drain-append (n - r.permits) rs)

-- The calls of a history, by any tasks.
pub data Call : Type 0 where
  acquires : Request → Call
  releases : ℕ → Call

pub apply : Call → Semaphore → Semaphore × List Completion
apply (acquires r) s = acquire r s
apply (releases n) s = release n s

-- The state after a history, and the completions of all its calls.
pub run : List Call → Semaphore → Semaphore × List Completion
run [] s = (s, [])
run (c ∷ cs) s = let (s', now) = apply c s in let (s'', later) = run cs s' in (s'', now ++ later)

abbrev pub arrivals : List Call → List Request
arrivals [] = []
arrivals (acquires r ∷ cs) = r ∷ arrivals cs
arrivals (releases n ∷ cs) = arrivals cs

-- A request for no permit is granted at once, and is no part of the queue.
abbrev pub AsksSome : Call → Type 0
AsksSome (acquires r) = 0 < r.permits
AsksSome (releases n) = Unit {0}

served-append : (cs ds : List Completion) → served (cs ++ ds) ≡ served cs ++ served ds
served-append [] ds = refl
served-append (granted r ∷ cs) ds = ap (◌∷◌ r) (served-append cs ds)
served-append (refused r ∷ cs) ds = served-append cs ds

apply_order :
    (c : Call) (s : Semaphore)
    → s.cancelled ≡ false
    → AsksSome c
    → (served (apply c s).1 ++ (apply c s).0.waiters ≡ s.waiters ++ arrivals (c ∷ []))
      × ((apply c s).0.cancelled ≡ false)
unfolding apply acquire release
apply_order (acquires r) s e a = ground (arith, append-nil s.waiters)
apply_order (releases n) s e a = ground (
  arith,
  append-nil s.waiters,
  served-map (drain (s.available + n) s.waiters).ready,
  drain-append (s.available + n) s.waiters,
)

order_step :
    (c : Call) (cs : List Call) (s : Semaphore)
    → (served (apply c s).1 ++ (apply c s).0.waiters ≡ s.waiters ++ arrivals (c ∷ []))
      × ((apply c s).0.cancelled ≡ false)
    → served (run cs (apply c s).0).1 ++ (run cs (apply c s).0).0.waiters
      ≡ (apply c s).0.waiters ++ arrivals cs
    → served (run (c ∷ cs) s).1 ++ (run (c ∷ cs) s).0.waiters ≡ s.waiters ++ arrivals (c ∷ cs)
unfolding run
order_step c cs s now later =
    rw (served-append (apply c s).1 (run cs (apply c s).0).1, append_assoc, later)
      (rw (← append_assoc, now.0, append_assoc) (split c))
  where
    split :
        (c : Call)
        → s.waiters ++ (arrivals (c ∷ []) ++ arrivals cs) ≡ s.waiters ++ arrivals (c ∷ cs)
    split (acquires r) = refl
    split (releases n) = refl

run_order_lem :
    (cs : List Call) (s : Semaphore)
    → s.cancelled ≡ false
    → All AsksSome cs
    → served (run cs s).1 ++ (run cs s).0.waiters ≡ s.waiters ++ arrivals cs
unfolding run
run_order_lem [] s e a = sym (append-nil s.waiters)
run_order_lem (acquires r ∷ cs) s e a =
    order_step (acquires r) cs s (apply_order _ s e a.0)
      (run_order_lem cs _ (apply_order (acquires r) s e a.0).1 a.1)
run_order_lem (releases n ∷ cs) s e a =
    order_step (releases n) cs s (apply_order _ s e a.0)
      (run_order_lem cs _ (apply_order (releases n) s e a.0).1 a.1)

-- From a new semaphore that is not cancelled, whatever the tasks acquire, each at least one permit,
-- and release, the requests served so far and those still waiting are together the requests made,
-- in the order in which they were made.
pub run_order :
    (initial_count : ℕ) (cs : List Call)
    → All AsksSome cs
    → served (run cs (init initial_count)).1 ++ (run cs (init initial_count)).0.waiters
      ≡ arrivals cs
unfolding init
run_order initial_count cs a = run_order_lem cs _ refl a

-- Cancelling refuses exactly the waiters, in order, grants nothing, and from then on every request
-- is refused and nobody waits.
pub cancel_refuses :
    (s : Semaphore) (r : Request)
    → s.cancelled ≡ false
    → (turned_away (cancel s).1 ≡ s.waiters)
      × (served (cancel s).1 ≡ [])
      × (acquire r (cancel s).0 ≡ ((cancel s).0, refused r ∷ []))
      × ((cancel s).0.waiters ≡ [])
      × ((cancel s).0.available ≡ s.available)
unfolding cancel acquire
cancel_refuses s r e = ground (arith, turned_away-map s.waiters, served-refused s.waiters)
