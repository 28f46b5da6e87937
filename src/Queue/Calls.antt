-- ===== src/Queue/Calls.antt =====
-- The calls of the queue that run one after another, each with what it takes in and hands out.
use sora_transport.Prelude.{
  ℕ, ◌≤◌, ◌<◌, ◌≡◌, ◌⊎◌, refl, ap, Option, none, some, List, [], ◌∷◌, ◌++◌, length, if◌then◌else◌,
}
use sora_transport.Prelude.Result.{Result, ok, err}
use sora_transport.Queue.{
  opened, Queue, QueueError, Completion, pushed, push_failed, popped, pop_failed, disposed,
  push_ready, pop_ready, async_push, async_pop, push_locked, pop_locked, resume, PendingPush,
}

module _ {T : Type 0} where
  -- The elements that completions hand to handlers.
  abbrev pub delivered : List (Completion T) → List T
  delivered [] = []
  delivered (popped h (some x) ∷ cs) = x ∷ delivered cs
  delivered (popped h none ∷ cs) = delivered cs
  delivered (pushed h ∷ cs) = delivered cs
  delivered (push_failed h e ∷ cs) = delivered cs
  delivered (pop_failed h e ∷ cs) = delivered cs
  delivered (disposed x ∷ cs) = delivered cs

  abbrev pub values : List (PendingPush T) → List T
  values [] = []
  values (w ∷ ws) = w.value ∷ values ws

  -- What the queue owes to pops to come, oldest first.
  abbrev pub view : Queue T → List T
  view q = q.items ++ values q.pending_pushes

  -- An open queue between two calls: pops wait only while it is empty, and pushes only while it
  -- is full.
  pub record IsSettled (q : Queue T) : Type 0 where
    pub is_opened : q.status ≡ opened
    pub has_capacity : 0 < q.capacity
    pub bounded : length q.items ≤ q.capacity
    pub idle_pops : (q.pending_pops ≡ []) ⊎ ((q.items ≡ []) × (q.pending_pushes ≡ []))
    pub full_pushes : (q.pending_pushes ≡ []) ⊎ (length q.items ≡ q.capacity)

  pub values-append : (vs ws : List (PendingPush T)) → values (vs ++ ws) ≡ values vs ++ values ws
  values-append [] ws = refl
  values-append (w ∷ vs) ws = ap (◌∷◌ w.value) (values-append vs ws)

-- A call, with the second section of the blocking ones. A blocking call that is not ready waits.
pub data Call (T : Type 0) : Type 0 where
  async_pushes : ℕ → T → Call T
  async_pops : ℕ → Call T
  pushes : T → Call T
  pops : Call T

-- What a call does: the new queue, the elements taken in, and the elements handed out.
pub record Effect (T : Type 0) : Type 0 where
  pub after : Queue T
  pub taken_in : List T
  pub handed_out : List T

abbrev pub opt : {T : Type 0} → Option T → List T
opt none = []
opt (some x) = x ∷ []

module _ {T : Type 0} where
  unfoldable pub after_push : Queue T → T → Result QueueError (Queue T) → Effect T
  after_push q x (ok r) = record {
    after = (resume r).0;
    taken_in = x ∷ [];
    handed_out = delivered (resume r).1;
  }
  after_push q x (err e) = record { after = q; taken_in = []; handed_out = [] }

  unfoldable pub after_pop : Queue T → Result QueueError (Option T × Queue T) → Effect T
  after_pop q (ok (o, r)) = record {
    after = (resume r).0;
    taken_in = [];
    handed_out = opt o ++ delivered (resume r).1;
  }
  after_pop q (err e) = record { after = q; taken_in = []; handed_out = [] }

  unfoldable pub apply : Call T → Queue T → Effect T
  apply (async_pushes h x) q = record {
    after = (async_push h x q).0;
    taken_in = x ∷ [];
    handed_out = delivered (async_push h x q).1;
  }
  apply (async_pops h) q = record {
    after = (async_pop h q).0;
    taken_in = [];
    handed_out = delivered (async_pop h q).1;
  }
  apply (pushes x) q =
      if push_ready q
      then after_push q x (push_locked x q)
      else record { after = q; taken_in = []; handed_out = [] }
  apply pops q =
      if pop_ready q
      then after_pop q (pop_locked q)
      else record { after = q; taken_in = []; handed_out = [] }

  pub record IsFifo (q : Queue T) (e : Effect T) : Type 0 where
    pub settled : IsSettled e.after
    pub in_order : e.handed_out ++ view e.after ≡ view q ++ e.taken_in
