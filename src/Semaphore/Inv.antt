-- ===== src/Semaphore/Inv.antt =====
-- Permits are conserved, and no waiter is left waiting for permits that are there.
use sora_transport.Prelude.{ℕ, ◌+◌, ◌-◌, ◌≤◌, ◌<◌, ◌≡◌, refl, true, List, [], ◌∷◌, map, All, arith}
use sora_transport.Semaphore.{
  Request, Semaphore, Completion, granted, refused, init, acquire, drain, release, cancel,
}

-- The permits that completions hand out.
abbrev pub permits_granted : List Completion → ℕ
permits_granted [] = 0
permits_granted (granted r ∷ cs) = r.permits + permits_granted cs
permits_granted (refused r ∷ cs) = permits_granted cs

abbrev pub permits_of : List Request → ℕ
permits_of [] = 0
permits_of (r ∷ rs) = r.permits + permits_of rs

-- The first waiter asks for more than is available.
abbrev pub IsBlocked : ℕ → List Request → Type 0
IsBlocked available [] = Unit {0}
IsBlocked available (r ∷ rs) = available < r.permits

-- `held` is what guards hold of the `total` permits.
pub record Inv (total held : ℕ) (s : Semaphore) : Type 0 where
  pub conserved : s.available + held ≡ total
  pub blocked : IsBlocked s.available s.waiters
  pub drained : s.cancelled ≡ true → s.waiters ≡ []

permits_granted-map : (rs : List Request) → permits_granted (map granted rs) ≡ permits_of rs
permits_granted-map [] = refl
permits_granted-map (r ∷ rs) = omega (arith, permits_granted-map rs)

permits_refused : (rs : List Request) → permits_granted (map refused rs) ≡ 0
permits_refused [] = refl
permits_refused (r ∷ rs) = permits_refused rs

pub drain-IsBlocked : (n : ℕ) (rs : List Request) → IsBlocked (drain n rs).left (drain n rs).rest
unfolding drain
drain-IsBlocked n [] = tt
drain-IsBlocked n (r ∷ rs) = ground (arith, drain-IsBlocked (n - r.permits) rs)

pub drain_conserves :
    (n : ℕ) (rs : List Request) → (drain n rs).left + permits_of (drain n rs).ready ≡ n
unfolding drain
drain_conserves n [] = omega arith
drain_conserves n (r ∷ rs) = ground (arith, drain_conserves (n - r.permits) rs)

module _ (total held : ℕ) (s : Semaphore) (v : Inv total held s) where
  acquire-Inv : (r : Request) → Inv total (held + permits_granted (acquire r s).1) (acquire r s).0
  unfolding acquire
  acquire-Inv r = ground arith

  release-Inv :
      (n rest : ℕ)
      → held ≡ n + rest
      → Inv total (rest + permits_granted (release n s).1) (release n s).0
  unfolding release
  release-Inv n rest e = ground (
    arith,
    drain_conserves (s.available + n) s.waiters,
    drain-IsBlocked (s.available + n) s.waiters,
    permits_granted-map (drain (s.available + n) s.waiters).ready,
  )

  cancel-Inv : Inv total (held + permits_granted (cancel s).1) (cancel s).0
  unfolding cancel
  cancel-Inv = ground (arith, permits_refused s.waiters)

-- One call on a semaphore while guards hold `held` permits, and what they hold after it. Only
-- guards release, so no more is released than is held.
pub data Step (s : Semaphore) (held : ℕ) : Semaphore → ℕ → Type 0 where
  acquires : (r : Request) → Step s held (acquire r s).0 (held + permits_granted (acquire r s).1)
  releases :
      (n rest : ℕ)
      → held ≡ n + rest
      → Step s held (release n s).0 (rest + permits_granted (release n s).1)
  cancels : Step s held (cancel s).0 (held + permits_granted (cancel s).1)

pub data Reach (total : ℕ) : Semaphore → ℕ → Type 0 where
  start : Reach total (init total) 0
  step : {s t : Semaphore} {h k : ℕ} → Reach total s h → Step s h t k → Reach total t k

init-Inv : (total : ℕ) → Inv total 0 (init total)
unfolding init
init-Inv total = ground arith

Step-Inv : {s t : Semaphore} {h k total : ℕ} → Step s h t k → Inv total h s → Inv total k t
Step-Inv {s} {h = h} {total = total} (acquires r) v = acquire-Inv total h s v r
Step-Inv {s} {h = h} {total = total} (releases n rest e) v = release-Inv total h s v n rest e
Step-Inv {s} {h = h} {total = total} cancels v = cancel-Inv total h s v

-- After any history of calls the permits available and held add up to the initial count, the
-- first waiter asks for more than is available, and a cancelled semaphore has no waiter.
pub Reach-Inv : (total : ℕ) {s : Semaphore} {held : ℕ} → Reach total s held → Inv total held s
Reach-Inv total start = init-Inv total
Reach-Inv total (step r st) = Step-Inv st (Reach-Inv total r)

-- After any history that ends with no permit held, and with no waiter that asks for more than the
-- initial count, nobody waits and all permits are available.
pub Reach_idle :
    (total : ℕ) {s : Semaphore}
    → Reach total s 0
    → All (λ r. r.permits ≤ total) s.waiters
    → (s.waiters ≡ []) × (s.available ≡ total)
Reach_idle total {s} r small = ground (arith, Reach-Inv total r)

-- After any history, a first waiter that asks for more than the initial count stays, and so does
-- all behind it, whatever the guards give back of what they hold.
pub release_oversize :
    (total : ℕ) {s : Semaphore} {held : ℕ} (r : Request) (rs : List Request) (n : ℕ)
    → Reach total s held
    → s.waiters ≡ r ∷ rs
    → total < r.permits
    → n ≤ held
    → ((release n s).0.waiters ≡ r ∷ rs) × ((release n s).1 ≡ [])
unfolding release drain
release_oversize total r rs n reach e big h = ground (arith, Reach-Inv total reach)
