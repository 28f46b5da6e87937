-- ===== src/Queue.antt =====
-- `BoundedQueue` (src/detail/types.hpp): a bounded queue with blocking and asynchronous ends.
-- Each critical section of the mutex is one function. The completions that it posts, and the
-- elements that it disposes of, are returned in order; `handler` numbers name completion handlers.
-- A blocking call runs its section once its wait predicate holds.
pub mod Sections
pub mod Calls
pub mod Fifo
pub mod Ending
mod Examples
use sora_transport.Prelude.{
  ℕ, Bool, true, false, ◌||◌, not, Option, none, some, List, [], ◌∷◌, ◌++◌, map, ltb, if◌then◌else◌,
  length, is_empty,
}
use sora_transport.Prelude.Result.{Result, ok, err}

pub data Status : Type 0 where
  opened closed abandoned : Status

-- `std::runtime_error("queue closed")` and `AbandonedError`.
pub data QueueError : Type 0 where
  queue_closed queue_abandoned : QueueError

pub record PendingPush (T : Type 0) : Type 0 where
  pub handler : ℕ
  pub value : T

pub record Queue (T : Type 0) : Type 0 where
  pub capacity : ℕ
  pub items : List T
  pub status : Status
  pub pending_pushes : List (PendingPush T)
  pub pending_pops : List ℕ

pub data Completion (T : Type 0) : Type 0 where
  pushed : ℕ → Completion T
  push_failed : ℕ → QueueError → Completion T
  popped : ℕ → Option T → Completion T
  pop_failed : ℕ → QueueError → Completion T
  disposed : T → Completion T

abbrev pub is_open : Status → Bool
is_open opened = true
is_open closed = false
is_open abandoned = false

module _ {T : Type 0} where
  unfoldable pub init : ℕ → Queue T
  init capacity = record {
    capacity = capacity;
    items = [];
    status = opened;
    pending_pushes = [];
    pending_pops = [];
  }

  abbrev pub has_room : Queue T → Bool
  has_room q = ltb (length q.items) q.capacity

  -- The body of `promote_one_locked`, by the two queues of waiters.
  unfoldable pub promote_waiter :
      List (PendingPush T) → List ℕ → Queue T → Queue T × List (Completion T)
  promote_waiter [] pops q = (q, [])
  promote_waiter (w ∷ pushes) (p ∷ pops) q = (
    record q { pending_pushes = pushes; pending_pops = pops },
    popped p (some w.value) ∷ pushed w.handler ∷ [],
  )
  promote_waiter (w ∷ pushes) [] q =
      if has_room q
      then (
        record q { items = q.items ++ (w.value ∷ []); pending_pushes = pushes },
        pushed w.handler ∷ [],
      )
      else (q, [])

  unfoldable pub promote_one : Queue T → Queue T × List (Completion T)
  promote_one q =
      if is_open q.status then promote_waiter q.pending_pushes q.pending_pops q else (q, [])

  unfoldable pub push_opened : List ℕ → ℕ → T → Queue T → Queue T × List (Completion T)
  push_opened (p ∷ pops) handler value q =
      (record q { pending_pops = pops }, popped p (some value) ∷ pushed handler ∷ [])
  push_opened [] handler value q =
      if has_room q then (record q { items = q.items ++ (value ∷ []) }, pushed handler ∷ []) else (
        record q {
          pending_pushes = q.pending_pushes ++ (record { handler = handler; value = value } ∷ []);
        },
        [],
      )

  unfoldable pub async_push : ℕ → T → Queue T → Queue T × List (Completion T)
  async_push handler value q = elim q.status [
    | abandoned ↦ (q, push_failed handler queue_abandoned ∷ [])
    | closed ↦ (q, push_failed handler queue_closed ∷ [])
    | opened ↦ push_opened q.pending_pops handler value q
  ]

  unfoldable pub pop_empty : Status → ℕ → Queue T → Queue T × List (Completion T)
  pop_empty closed handler q = (q, popped handler none ∷ [])
  pop_empty abandoned handler q = (q, pop_failed handler queue_abandoned ∷ [])
  pop_empty opened handler q = (record q { pending_pops = q.pending_pops ++ (handler ∷ []) }, [])

  unfoldable pub async_pop_items : List T → ℕ → Queue T → Queue T × List (Completion T)
  async_pop_items [] handler q = pop_empty q.status handler q
  async_pop_items (x ∷ rest) handler q =
      let (q', done) = promote_one (record q { items = rest }) in
      (q', done ++ (popped handler (some x) ∷ []))

  unfoldable pub async_pop : ℕ → Queue T → Queue T × List (Completion T)
  async_pop handler q = async_pop_items q.items handler q

  -- `push`: the wait predicate, and the section up to `lock.unlock()`.
  abbrev pub push_ready : Queue T → Bool
  push_ready q = not (is_open q.status) || has_room q

  unfoldable pub push_locked : T → Queue T → Result QueueError (Queue T)
  push_locked value q = elim q.status [
    | abandoned ↦ err queue_abandoned
    | closed ↦ err queue_closed
    | opened ↦ ok (record q { items = q.items ++ (value ∷ []) })
  ]

  -- `pop`: the wait predicate, and the section up to `lock.unlock()`.
  abbrev pub pop_ready : Queue T → Bool
  pop_ready q = not (is_open q.status) || not (is_empty q.items)

  unfoldable pub pop_locked_items : List T → Queue T → Result QueueError (Option T × Queue T)
  pop_locked_items [] q = elim q.status [
    | abandoned ↦ err queue_abandoned
    | closed ↦ ok (none, q)
    | opened ↦ ok (none, q)
  ]
  pop_locked_items (x ∷ rest) q = ok (some x, record q { items = rest })

  unfoldable pub pop_locked : Queue T → Result QueueError (Option T × Queue T)
  pop_locked q = pop_locked_items q.items q

  -- `schedule_resume_from_sync`: hands the front to a waiting pop, then promotes a waiting push.
  unfoldable pub resume_items : List T → List ℕ → Queue T → Queue T × List (Completion T)
  resume_items (x ∷ rest) (p ∷ pops) q =
      let (q', done) = promote_one (record q { items = rest; pending_pops = pops }) in
      (q', popped p (some x) ∷ done)
  resume_items [] pops q = promote_one q
  resume_items (x ∷ rest) [] q = promote_one q

  unfoldable pub resume : Queue T → Queue T × List (Completion T)
  resume q = resume_items q.items q.pending_pops q

  abbrev pub fail_pushes : QueueError → List (PendingPush T) → List (Completion T)
  fail_pushes e [] = []
  fail_pushes e (w ∷ ws) = disposed w.value ∷ push_failed w.handler e ∷ fail_pushes e ws

  abbrev pub end_pops : List ℕ → List (Completion T)
  end_pops [] = []
  end_pops (p ∷ ps) = popped p none ∷ end_pops ps

  abbrev pub fail_pops : QueueError → List ℕ → List (Completion T)
  fail_pops e [] = []
  fail_pops e (p ∷ ps) = pop_failed p e ∷ fail_pops e ps

  unfoldable pub close : Queue T → Queue T × List (Completion T)
  close q =
      if is_open q.status
      then (
        record q { status = closed; pending_pushes = []; pending_pops = [] },
        fail_pushes queue_closed q.pending_pushes ++ end_pops q.pending_pops,
      )
      else (q, [])

  unfoldable pub abandon : Queue T → Queue T × List (Completion T)
  abandon q = elim q.status [
    | abandoned ↦ (q, [])
    | _ ↦ (
      record q { status = abandoned; items = []; pending_pushes = []; pending_pops = [] },
      map disposed q.items
          ++ (fail_pushes queue_abandoned q.pending_pushes
              ++ fail_pops queue_abandoned q.pending_pops),
    )
  ]
