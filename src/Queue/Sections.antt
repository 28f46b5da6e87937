-- ===== src/Queue/Sections.antt =====
-- What holds after every critical section, in whatever order the threads enter them.
use sora_transport.Prelude.{
  ℕ, ◌≤◌, ◌≡◌, ◌≢◌, refl, true, Option, List, [], ◌∷◌, length, arith, length-append,
}
use sora_transport.Prelude.Result.{ok}
use sora_transport.Queue.{
  Status, opened, abandoned, Queue, init, push_ready, promote_waiter, promote_one, push_opened,
  async_push, pop_empty, async_pop_items, async_pop, push_locked, pop_locked_items, pop_locked,
  resume_items, resume, close, abandon, PendingPush,
}

module _ {T : Type 0} where
  pub record Inv (q : Queue T) : Type 0 where
    pub bounded : length q.items ≤ q.capacity
    pub no_pushes : q.status ≢ opened → q.pending_pushes ≡ []
    pub no_pops : q.status ≢ opened → q.pending_pops ≡ []
    pub no_items : q.status ≡ abandoned → q.items ≡ []

  promote_waiter-Inv :
      (pushes : List (PendingPush T)) (pops : List ℕ) (q : Queue T)
      → q.status ≡ opened
      → Inv q
      → Inv (promote_waiter pushes pops q).0
  unfolding promote_waiter
  promote_waiter-Inv [] pops q e v = v
  promote_waiter-Inv (w ∷ pushes) (p ∷ pops) q e v = ground arith
  promote_waiter-Inv (w ∷ pushes) [] q e v = ground (arith, length-append q.items (w.value ∷ []))

  promote_one-Inv : (q : Queue T) → Inv q → Inv (promote_one q).0
  unfolding promote_one
  promote_one-Inv q v = ground (arith, promote_waiter-Inv q.pending_pushes q.pending_pops q)

  push_opened-Inv :
      (pops : List ℕ) (h : ℕ) (x : T) (q : Queue T)
      → q.status ≡ opened
      → Inv q
      → Inv (push_opened pops h x q).0
  unfolding push_opened
  push_opened-Inv (p ∷ pops) h x q e v = ground arith
  push_opened-Inv [] h x q e v = ground (arith, length-append q.items (x ∷ []))

  async_push-Inv : (h : ℕ) (x : T) (q : Queue T) → Inv q → Inv (async_push h x q).0
  unfolding async_push
  async_push-Inv h x q v = ground (arith, push_opened-Inv q.pending_pops h x q)

  pop_empty-Inv :
      (s : Status) (h : ℕ) (q : Queue T) → q.status ≡ s → Inv q → Inv (pop_empty s h q).0
  unfolding pop_empty
  pop_empty-Inv opened h q e v = ground arith
  pop_empty-Inv _ h q e v = v

  async_pop_items-Inv :
      (xs : List T) (h : ℕ) (q : Queue T) → q.items ≡ xs → Inv q → Inv (async_pop_items xs h q).0
  unfolding async_pop_items
  async_pop_items-Inv [] h q e v = pop_empty-Inv q.status h q refl v
  async_pop_items-Inv (x ∷ rest) h q e v =
      promote_one-Inv (record q { items = rest }) (ground arith)

  resume_items-Inv :
      (xs : List T) (pops : List ℕ) (q : Queue T)
      → q.items ≡ xs
      → q.pending_pops ≡ pops
      → Inv q
      → Inv (resume_items xs pops q).0
  unfolding resume_items
  resume_items-Inv (x ∷ rest) (p ∷ pops) q e f v =
      promote_one-Inv (record q { items = rest; pending_pops = pops }) (ground arith)
  resume_items-Inv [] pops q e f v = promote_one-Inv q v
  resume_items-Inv (x ∷ rest) [] q e f v = promote_one-Inv q v

  close-Inv : (q : Queue T) → Inv q → Inv (close q).0
  unfolding close
  close-Inv q v = ground arith

  abandon-Inv : (q : Queue T) → Inv q → Inv (abandon q).0
  unfolding abandon
  abandon-Inv q v = ground arith

  push_locked-Inv :
      (x : T) (q r : Queue T) → push_ready q ≡ true → push_locked x q ≡ ok r → Inv q → Inv r
  unfolding push_locked
  push_locked-Inv x q r h e v = ground (arith, length-append q.items (x ∷ []))

  pop_locked_items-Inv :
      (xs : List T) (q r : Queue T) (o : Option T)
      → q.items ≡ xs
      → pop_locked_items xs q ≡ ok (o, r)
      → Inv q
      → Inv r
  unfolding pop_locked_items
  pop_locked_items-Inv [] q r o f e v = ground arith
  pop_locked_items-Inv (x ∷ rest) q r o f e v = ground arith

-- One critical section of some thread. `push` and `pop` are two sections each, and other threads
-- may come in between.
pub data Section {T : Type 0} (q : Queue T) : Queue T → Type 0 where
  pushes_async : (h : ℕ) (x : T) → Section q (async_push h x q).0
  pops_async : (h : ℕ) → Section q (async_pop h q).0
  pushes : (x : T) {r : Queue T} → push_ready q ≡ true → push_locked x q ≡ ok r → Section q r
  pops : {o : Option T} {r : Queue T} → pop_locked q ≡ ok (o, r) → Section q r
  resumes : Section q (resume q).0
  closes : Section q (close q).0
  abandons : Section q (abandon q).0

pub data Reach {T : Type 0} (capacity : ℕ) : Queue T → Type 0 where
  start : Reach capacity (init capacity)
  step : {q r : Queue T} → Reach capacity q → Section q r → Reach capacity r

module _ {T : Type 0} where
  Section-Inv : {q r : Queue T} → Section q r → Inv q → Inv r
  unfolding async_pop pop_locked resume
  Section-Inv {q} (pushes_async h x) v = async_push-Inv h x q v
  Section-Inv {q} (pops_async h) v = async_pop_items-Inv q.items h q refl v
  Section-Inv {q} (pushes x {r} h e) v = push_locked-Inv x q r h e v
  Section-Inv {q} (pops {o} {r} e) v = pop_locked_items-Inv q.items q r o refl e v
  Section-Inv {q} resumes v = resume_items-Inv q.items q.pending_pops q refl refl v
  Section-Inv {q} closes v = close-Inv q v
  Section-Inv {q} abandons v = abandon-Inv q v

  init-Inv : (capacity : ℕ) → Inv (init {T = T} capacity)
  unfolding init
  init-Inv capacity = ground arith

  -- However the sections of any number of threads are interleaved, the queue never holds more
  -- than its capacity, a queue that is closed or abandoned has no waiter, and an abandoned one
  -- has no element.
  pub Reach_bounded : (capacity : ℕ) {q : Queue T} → Reach capacity q → Inv q
  Reach_bounded capacity start = init-Inv capacity
  Reach_bounded capacity (step r s) = Section-Inv s (Reach_bounded capacity r)
