-- ===== src/Queue/Fifo.antt =====
-- Elements come out in the order in which they went in, over calls that run one after another.
use sora_transport.Prelude.{
  ℕ, ◌+◌, ◌≤◌, ◌<◌, ◌≡◌, ◌⊎◌, refl, sym, ap, ◌∙◌, none, some, List, [], ◌∷◌, ◌++◌, length, arith,
  length-append, append-nil, append_assoc, if◌then◌else◌, Bool-cases, inl, inr,
}
use sora_transport.Queue.{
  opened, Queue, Completion, pushed, push_failed, popped, pop_failed, disposed, init, has_room,
  push_ready, pop_ready, promote_waiter, promote_one, push_opened, async_push, pop_empty,
  async_pop_items, async_pop, push_locked, pop_locked_items, pop_locked, resume_items, resume,
  PendingPush,
}
use sora_transport.Queue.Calls.{
  delivered, values, view, IsSettled, Call, async_pushes, async_pops, pushes, pops, Effect,
  after_push, after_pop, apply, IsFifo, values-append,
}

module _ {T : Type 0} where
  -- After an element has left, a waiting push fills its place.
  promote_waiter_settles :
      (ws : List (PendingPush T)) (q : Queue T)
      → q.pending_pushes ≡ ws
      → q.pending_pops ≡ []
      → q.status ≡ opened
      → 0 < q.capacity
      → length q.items ≤ q.capacity
      → (ws ≡ []) ⊎ (q.capacity ≤ length q.items + 1)
      → IsSettled (promote_waiter ws [] q).0
        × (view (promote_waiter ws [] q).0 ≡ view q)
        × (delivered (promote_waiter ws [] q).1 ≡ [])
  unfolding promote_waiter
  promote_waiter_settles [] q e p o c b f = ground arith
  promote_waiter_settles (w ∷ ws) q e p o c b f =
      ground (
        arith,
        length-append q.items (w.value ∷ []),
        append_assoc q.items (w.value ∷ []) (values ws),
      )

  promote_one_settles :
      (q : Queue T)
      → q.pending_pops ≡ []
      → q.status ≡ opened
      → 0 < q.capacity
      → length q.items ≤ q.capacity
      → (q.pending_pushes ≡ []) ⊎ (q.capacity ≤ length q.items + 1)
      → IsSettled (promote_one q).0
        × (view (promote_one q).0 ≡ view q)
        × (delivered (promote_one q).1 ≡ [])
  unfolding promote_one
  promote_one_settles q p o c b f =
      ground (arith, promote_waiter_settles q.pending_pushes q refl p o c b f)

  push_opened_settles :
      (ps : List ℕ) (h : ℕ) (x : T) (q : Queue T)
      → q.pending_pops ≡ ps
      → IsSettled q
      → IsSettled (push_opened ps h x q).0
        × (delivered (push_opened ps h x q).1 ++ view (push_opened ps h x q).0 ≡ view q ++ (x ∷ []))
  unfolding push_opened
  push_opened_settles (p ∷ ps) h x q e v = ground arith
  push_opened_settles [] h x q e v = elim (Bool-cases (has_room q)) [
    | inl room ↦ rw room (
        ground (
          arith,
          length-append q.items (x ∷ []),
          append-nil q.items,
          append-nil (q.items ++ (x ∷ [])),
        ))
    | inr full ↦ rw full (
        ground (
          arith,
          values-append q.pending_pushes (record { handler = h; value = x } ∷ []),
          append_assoc q.items (values q.pending_pushes) (x ∷ []),
        ))
  ]

  async_push_IsFifo :
      (h : ℕ) (x : T) (q : Queue T) → IsSettled q → IsFifo q (apply (async_pushes h x) q)
  unfolding apply async_push
  async_push_IsFifo h x q v = ground (arith, push_opened_settles q.pending_pops h x q refl v)

  delivered-append :
      (cs ds : List (Completion T)) → delivered (cs ++ ds) ≡ delivered cs ++ delivered ds
  delivered-append [] ds = refl
  delivered-append (popped h (some x) ∷ cs) ds = ap (◌∷◌ x) (delivered-append cs ds)
  delivered-append (popped h none ∷ cs) ds = delivered-append cs ds
  delivered-append (pushed h ∷ cs) ds = delivered-append cs ds
  delivered-append (push_failed h e ∷ cs) ds = delivered-append cs ds
  delivered-append (pop_failed h e ∷ cs) ds = delivered-append cs ds
  delivered-append (disposed x ∷ cs) ds = delivered-append cs ds

  async_pop_items_settles :
      (xs : List T) (h : ℕ) (q : Queue T)
      → q.items ≡ xs
      → IsSettled q
      → IsSettled (async_pop_items xs h q).0
        × (delivered (async_pop_items xs h q).1 ++ view (async_pop_items xs h q).0 ≡ view q)
  unfolding async_pop_items pop_empty
  async_pop_items_settles [] h q e v = ground arith
  async_pop_items_settles (x ∷ rest) h q e v = ground (
    arith,
    promote_one_settles (record q { items = rest }),
    delivered-append (promote_one (record q { items = rest })).1 (popped h (some x) ∷ []),
  )

  async_pop_IsFifo : (h : ℕ) (q : Queue T) → IsSettled q → IsFifo q (apply (async_pops h) q)
  unfolding apply async_pop
  async_pop_IsFifo h q v =
      ground (arith, async_pop_items_settles q.items h q refl v, append-nil (view q))

  promote_one_none : (q : Queue T) → q.pending_pushes ≡ [] → promote_one q ≡ (q, [])
  unfolding promote_one promote_waiter
  promote_one_none q e = ground arith

  -- `schedule_resume_from_sync` after an element was added to a settled queue that had room.
  resume_items_after_push :
      (xs : List T) (ps : List ℕ) (x : T) (q : Queue T)
      → q.items ≡ xs
      → q.pending_pops ≡ ps
      → length q.items < q.capacity
      → IsSettled q
      → let r = resume_items (xs ++ (x ∷ [])) ps (record q { items = xs ++ (x ∷ []) }) in
        IsSettled r.0 × (delivered r.1 ++ view r.0 ≡ view q ++ (x ∷ []))
  unfolding resume_items
  resume_items_after_push [] [] x q e f h v =
      ground (arith, promote_one_settles (record q { items = x ∷ [] }))
  resume_items_after_push [] (p ∷ ps) x q e f h v =
      ground (arith, promote_one_none (record q { items = []; pending_pops = ps }))
  resume_items_after_push (y ∷ ys) [] x q e f h v = ground (
    arith,
    length-append ys (x ∷ []),
    append-nil ys,
    append-nil (ys ++ (x ∷ [])),
    promote_one_settles (record q { items = y ∷ (ys ++ (x ∷ [])) }),
  )
  resume_items_after_push (y ∷ ys) (p ∷ ps) x q e f h v = absurd (ground arith)

  push_IsFifo : (x : T) (q : Queue T) → IsSettled q → IsFifo q (apply (pushes x) q)
  unfolding apply push_locked after_push resume
  push_IsFifo x q v = elim (Bool-cases (push_ready q)) [
    | inl ready ↦ rw ready (
        ground (
          arith,
          resume_items_after_push q.items q.pending_pops x q refl refl,
          append-nil (view q),
        ))
    | inr full ↦ rw full (ground (arith, append-nil (view q)))
  ]

  resume_after_pop :
      (x : T) (rest : List T) (q : Queue T)
      → q.items ≡ x ∷ rest
      → IsSettled q
      → let r = resume (record q { items = rest }) in
        IsSettled r.0 × (x ∷ (delivered r.1 ++ view r.0) ≡ view q)
  unfolding resume resume_items
  resume_after_pop x [] q e v = ground (arith, promote_one_settles (record q { items = [] }))
  resume_after_pop x (y ∷ rest) q e v =
      ground (arith, promote_one_settles (record q { items = y ∷ rest }))

  pop_items_IsFifo :
      (xs : List T) (q : Queue T)
      → q.items ≡ xs
      → IsSettled q
      → IsFifo q (
          if pop_ready q
          then after_pop q (pop_locked_items xs q)
          else record { after = q; taken_in = []; handed_out = [] })
  unfolding pop_locked_items after_pop
  pop_items_IsFifo [] q e v = ground (arith, append-nil (view q))
  pop_items_IsFifo (x ∷ rest) q e v =
      ground (arith, resume_after_pop x rest q e v, append-nil (view q))

  pop_IsFifo : (q : Queue T) → IsSettled q → IsFifo q (apply pops q)
  unfolding apply pop_locked after_pop
  pop_IsFifo q v = pop_items_IsFifo q.items q refl v

  apply-IsFifo : (c : Call T) (q : Queue T) → IsSettled q → IsFifo q (apply c q)
  apply-IsFifo (async_pushes h x) q v = async_push_IsFifo h x q v
  apply-IsFifo (async_pops h) q v = async_pop_IsFifo h q v
  apply-IsFifo (pushes x) q v = push_IsFifo x q v
  apply-IsFifo pops q v = pop_IsFifo q v

  -- A history of calls: the effects add up.
  pub run : List (Call T) → Queue T → Effect T
  run [] q = record { after = q; taken_in = []; handed_out = [] }
  run (c ∷ cs) q =
      let e = apply c q in
      let later = run cs e.after in
      record {
        after = later.after;
        taken_in = e.taken_in ++ later.taken_in;
        handed_out = e.handed_out ++ later.handed_out;
      }

  run-IsFifo : (cs : List (Call T)) (q : Queue T) → IsSettled q → IsFifo q (run cs q)
  unfolding run
  run-IsFifo [] q v = record { settled = v; in_order = sym (append-nil (view q)) }
  run-IsFifo (c ∷ cs) q v =
      let e : IsFifo q (apply c q) = apply-IsFifo c q v in
      let later : IsFifo (apply c q).after (run cs (apply c q).after) =
        run-IsFifo cs (apply c q).after e.settled in
      record {
        settled = later.settled;
        in_order =
            append_assoc (apply c q).handed_out (run cs (apply c q).after).handed_out _
            ∙ ap (◌++◌ (apply c q).handed_out) later.in_order
            ∙ sym (append_assoc (apply c q).handed_out (view (apply c q).after) _)
            ∙ ap (λ l. l ++ (run cs (apply c q).after).taken_in) e.in_order
            ∙ append_assoc (view q) (apply c q).taken_in _;
      }

  -- From a new queue of positive capacity, after any blocking and asynchronous pushes and pops that
  -- run one after another, the elements handed out, followed by those in the queue and those of
  -- waiting pushes, are the elements taken in, in order.
  pub run_in_order :
      (capacity : ℕ) (cs : List (Call T))
      → 0 < capacity
      → let e = run cs (init capacity) in e.handed_out ++ view e.after ≡ e.taken_in
  unfolding init
  run_in_order capacity cs h = (run-IsFifo cs (init capacity) (ground arith)).in_order
