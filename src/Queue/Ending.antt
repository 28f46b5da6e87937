-- ===== src/Queue/Ending.antt =====
-- How a queue ends: by `close`, after which it is drained, or by `abandon`.
use sora_transport.Prelude.{
  ℕ, ◌≡◌, ◌≢◌, refl, true, Option, none, some, List, [], ◌∷◌, ◌++◌, arith, map,
}
use sora_transport.Prelude.Result.{err}
use sora_transport.Queue.{
  opened, closed, abandoned, Queue, QueueError, queue_closed, queue_abandoned, Completion, pushed,
  push_failed, popped, pop_failed, disposed, promote_one, async_push, async_pop, async_pop_items,
  pop_empty, push_ready, push_locked, pop_ready, pop_locked, pop_locked_items, close, abandon,
  fail_pushes, end_pops, fail_pops, PendingPush,
}
use sora_transport.Queue.Calls.{delivered, values}

abbrev pub endings : Option QueueError → List ℕ → List (ℕ × Option QueueError)
endings o [] = []
endings o (p ∷ ps) = (p, o) ∷ endings o ps

-- What completions tell: the pushes that fail, the pops that end or fail, the elements disposed of.
module _ {T : Type 0} where
  abbrev pub failed_pushes : List (Completion T) → List (ℕ × QueueError)
  failed_pushes [] = []
  failed_pushes (push_failed h e ∷ cs) = (h, e) ∷ failed_pushes cs
  failed_pushes (pushed h ∷ cs) = failed_pushes cs
  failed_pushes (popped h o ∷ cs) = failed_pushes cs
  failed_pushes (pop_failed h e ∷ cs) = failed_pushes cs
  failed_pushes (disposed x ∷ cs) = failed_pushes cs

  -- A pop that ends is told so by `none`; one that fails by the error.
  abbrev pub ended_pops : List (Completion T) → List (ℕ × Option QueueError)
  ended_pops [] = []
  ended_pops (push_failed h e ∷ cs) = ended_pops cs
  ended_pops (pushed h ∷ cs) = ended_pops cs
  ended_pops (popped h none ∷ cs) = (h, none) ∷ ended_pops cs
  ended_pops (popped h (some x) ∷ cs) = ended_pops cs
  ended_pops (pop_failed h e ∷ cs) = (h, some e) ∷ ended_pops cs
  ended_pops (disposed x ∷ cs) = ended_pops cs

  abbrev pub disposals : List (Completion T) → List T
  disposals [] = []
  disposals (push_failed h e ∷ cs) = disposals cs
  disposals (pushed h ∷ cs) = disposals cs
  disposals (popped h o ∷ cs) = disposals cs
  disposals (pop_failed h e ∷ cs) = disposals cs
  disposals (disposed x ∷ cs) = x ∷ disposals cs

  abbrev pub refusals : QueueError → List (PendingPush T) → List (ℕ × QueueError)
  refusals e [] = []
  refusals e (w ∷ ws) = (w.handler, e) ∷ refusals e ws

  -- All that a list of completions tells.
  pub record Tells (cs : List (Completion T)) (fs : List (ℕ × QueueError))
      (es : List (ℕ × Option QueueError)) (ds : List T) : Type 0 where
    pub pushes_failed : failed_pushes cs ≡ fs
    pub pops_ended : ended_pops cs ≡ es
    pub all_disposed : disposals cs ≡ ds
    pub none_delivered : delivered cs ≡ []

  Tells-end_pops : (ps : List ℕ) → Tells (end_pops ps) [] (endings none ps) []
  Tells-end_pops [] = ground arith
  Tells-end_pops (p ∷ ps) = ground (arith, Tells-end_pops ps)

  Tells-fail_pops :
      (e : QueueError) (ps : List ℕ) → Tells (fail_pops e ps) [] (endings (some e) ps) []
  Tells-fail_pops e [] = ground arith
  Tells-fail_pops e (p ∷ ps) = ground (arith, Tells-fail_pops e ps)

  Tells-fail_pushes :
      (e : QueueError) (ws : List (PendingPush T)) (cs : List (Completion T))
      {es : List (ℕ × Option QueueError)}
      → Tells cs [] es []
      → Tells (fail_pushes e ws ++ cs) (refusals e ws) es (values ws)
  Tells-fail_pushes e [] cs t = t
  Tells-fail_pushes e (w ∷ ws) cs t = ground (arith, Tells-fail_pushes e ws cs t)

  Tells-disposed :
      (xs : List T) (cs : List (Completion T)) {fs : List (ℕ × QueueError)}
      {es : List (ℕ × Option QueueError)} {ds : List T}
      → Tells cs fs es ds
      → Tells (map disposed xs ++ cs) fs es (xs ++ ds)
  Tells-disposed [] cs t = t
  Tells-disposed (x ∷ xs) cs t = ground (arith, Tells-disposed xs cs t)

  -- Closing an open queue fails every waiting push and disposes of its element, ends every waiting
  -- pop, hands out nothing and keeps the elements; closing again does nothing.
  pub close-Tells :
      (q : Queue T)
      → q.status ≡ opened
      → Tells
          (close q).1
          (refusals queue_closed q.pending_pushes)
          (endings none q.pending_pops)
          (values q.pending_pushes)
        × ((close q).0.items ≡ q.items)
        × (close (close q).0 ≡ ((close q).0, []))
  unfolding close
  close-Tells q e = ground (
    arith,
    Tells-fail_pushes queue_closed q.pending_pushes (end_pops q.pending_pops)
        (Tells-end_pops q.pending_pops),
  )

  -- Abandoning a queue that is not yet abandoned disposes of every element, queued or waiting,
  -- fails every waiter with the abandoned error and hands out nothing. From then on every
  -- asynchronous push and pop fails with that error, a blocking one no longer waits and throws it,
  -- and abandoning again does nothing.
  pub abandon-Tells :
      (q : Queue T) (h : ℕ) (x : T)
      → q.status ≢ abandoned
      → Tells
          (abandon q).1
          (refusals queue_abandoned q.pending_pushes)
          (endings (some queue_abandoned) q.pending_pops)
          (q.items ++ values q.pending_pushes)
        × (async_push h x (abandon q).0 ≡ ((abandon q).0, push_failed h queue_abandoned ∷ []))
        × (async_pop h (abandon q).0 ≡ ((abandon q).0, pop_failed h queue_abandoned ∷ []))
        × (push_ready (abandon q).0 ≡ true)
        × (push_locked x (abandon q).0 ≡ err queue_abandoned)
        × (pop_ready (abandon q).0 ≡ true)
        × (pop_locked (abandon q).0 ≡ err queue_abandoned)
        × (abandon (abandon q).0 ≡ ((abandon q).0, []))
  unfolding abandon async_push async_pop async_pop_items pop_empty push_locked pop_locked
      pop_locked_items
  abandon-Tells q h x e = ground (
    arith,
    Tells-disposed q.items
        (fail_pushes queue_abandoned q.pending_pushes ++ fail_pops queue_abandoned q.pending_pops)
        (Tells-fail_pushes queue_abandoned q.pending_pushes
          (fail_pops queue_abandoned q.pending_pops)
          (Tells-fail_pops queue_abandoned q.pending_pops)),
  )

  -- The completions of one asynchronous pop for each handler.
  pub pop_all : List ℕ → Queue T → Queue T × List (Completion T)
  pop_all [] q = (q, [])
  pop_all (h ∷ hs) q =
      let (q', now) = async_pop h q in let (q'', later) = pop_all hs q' in (q'', now ++ later)

  abbrev pub answers : List ℕ → List T → List (Completion T)
  answers [] xs = []
  answers (h ∷ hs) [] = popped h none ∷ answers hs []
  answers (h ∷ hs) (x ∷ xs) = popped h (some x) ∷ answers hs xs

  pop_all_items :
      (hs : List ℕ) (xs : List T) (q : Queue T)
      → q.items ≡ xs
      → q.status ≡ closed
      → (pop_all hs q).1 ≡ answers hs xs
  unfolding pop_all async_pop async_pop_items pop_empty promote_one
  pop_all_items [] xs q f e = refl
  pop_all_items (h ∷ hs) [] q f e = ground (arith, pop_all_items hs [] q f e)
  pop_all_items (h ∷ hs) (x ∷ xs) q f e =
      ground (arith, pop_all_items hs xs (record q { items = xs }))

  -- A closed queue still hands out its elements in order, and answers every later pop with `none`.
  pub pop_all_closed :
      (hs : List ℕ) (q : Queue T) → q.status ≡ closed → (pop_all hs q).1 ≡ answers hs q.items
  pop_all_closed hs q e = pop_all_items hs q.items q refl e
