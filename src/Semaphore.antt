-- ===== src/Semaphore.antt =====
-- `SemaphoreCor` (src/detail2/infra.hpp and infra.cpp): a counting semaphore whose waiters are
-- served in order. Each method is one critical section of the mutex; the completions that it
-- posts to the executor are returned, in order. The text of the cancel message is left out.
pub mod Inv
pub mod Order
mod Examples
use sora_transport.Prelude.{
  ℕ, ◌+◌, ◌-◌, Bool, true, false, ◌&&◌, ◌||◌, not, List, [], ◌∷◌, ◌++◌, map, ltb, leb, ◌==◌,
  if◌then◌else◌, is_empty,
}

-- A `PendingRequest`; `handler` names the completion handler.
pub record Request : Type 0 where
  pub handler : ℕ
  pub permits : ℕ

pub record Semaphore : Type 0 where
  pub available : ℕ
  pub waiters : List Request
  pub cancelled : Bool

-- An `AcquireResult` handed to a handler: a guard, or the `CancelledError`.
pub data Completion : Type 0 where
  granted : Request → Completion
  refused : Request → Completion

pub init : ℕ → Semaphore
init initial_count = record { available = initial_count; waiters = []; cancelled = false }

unfoldable pub acquire : Request → Semaphore → Semaphore × List Completion
acquire r s =
    if s.cancelled
    then (s, refused r ∷ [])
    else if r.permits == 0
    then (s, granted r ∷ [])
    else if is_empty s.waiters && leb r.permits s.available
    then (record s { available = s.available - r.permits }, granted r ∷ [])
    else (record s { waiters = s.waiters ++ (r ∷ []) }, [])

-- `drain_ready_waiters_locked`: the permits left, the waiters served and the waiters that stay.
pub record Drained : Type 0 where
  pub left : ℕ
  pub ready : List Request
  pub rest : List Request

unfoldable pub drain : ℕ → List Request → Drained
drain available [] = record { left = available; ready = []; rest = [] }
drain available (next ∷ waiters) =
    let after = drain (available - next.permits) waiters in
    if ltb available next.permits
    then record { left = available; ready = []; rest = next ∷ waiters }
    else record { left = after.left; ready = next ∷ after.ready; rest = after.rest }

unfoldable pub release : ℕ → Semaphore → Semaphore × List Completion
unfolding drain
release permits s =
    if permits == 0
    then (s, [])
    else if s.cancelled
    then (record s { available = s.available + permits }, [])
    else let d = drain (s.available + permits) s.waiters in
      (record s { available = d.left; waiters = d.rest }, map granted d.ready)

unfoldable pub cancel : Semaphore → Semaphore × List Completion
cancel s =
    if s.cancelled
    then (s, [])
    else (record s { waiters = []; cancelled = true }, map refused s.waiters)

-- A `Guard`: the permits that it holds, if it is attached to the semaphore.
pub record Guard : Type 0 where
  pub attached : Bool
  pub held : ℕ

unfoldable pub reset : Guard → Semaphore → Guard × (Semaphore × List Completion)
unfolding release
reset g s =
    if not g.attached || g.held == 0
    then (record { attached = false; held = 0 }, (s, []))
    else (record { attached = false; held = 0 }, release g.held s)

-- Move assignment to another guard: `to` gives back its own permits first; `from` keeps none.
unfoldable pub move_assign :
    Guard → Guard → Semaphore → (Guard × Guard) × (Semaphore × List Completion)
unfolding reset
move_assign to from s =
    let (old, after) = reset to s in ((from, record { attached = false; held = 0 }), after)
