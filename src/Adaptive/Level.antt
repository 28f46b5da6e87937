-- ===== src/Adaptive/Level.antt =====
-- The levels that the controller asks for.
use sora_transport.Prelude.{
  ℕ, ◌*◌, ◌≡◌, ◌≢◌, refl, ◌⊎◌, inl, true, false, none, List, [], ◌∷◌, arith,
}
use sora_transport.Prelude.Int.{ℤ, pos, ◌+ℤ◌, ◌-ℤ◌, ◌≤ℤ◌, min_ℤ, clamp_ℤ}
use sora_transport.Adaptive.{
  apply_decision, min_adaptive_level, max_adaptive_level, Direction, no_direction, up, down,
  Decision, Controller, init, cooling_down, is_reversal, evaluate, Pressure, upstream_full,
  downstream_full, downstream_empty_then_upstream_full, on,
}

abbrev pub InRange : Controller → ℤ → Type 0
InRange c level = (c.min_level ≤ℤ level) × (level ≤ℤ c.max_level)

-- The last target, once there has been one, is in range.
pub record Inv (c : Controller) : Type 0 where
  pub ordered : c.min_level ≤ℤ c.max_level
  pub target : c.last_direction ≢ no_direction → InRange c c.last_target_level

pub record Adjusted (c : Controller) (r : Controller × Decision) : Type 0 where
  pub inv : Inv r.0
  pub same_range : (r.0.min_level ≡ c.min_level) × (r.0.max_level ≡ c.max_level)
  pub in_range : r.1.changed ≡ true → InRange c r.1.level
  pub unchanged : r.1.changed ≡ false → r.0 ≡ c

min_ℤ_range : (a b lo hi : ℤ) → lo ≤ℤ a → lo ≤ℤ b → a ≤ℤ hi → (lo ≤ℤ min_ℤ a b) × (min_ℤ a b ≤ℤ hi)
unfolding min_ℤ
min_ℤ_range a b lo hi p q r = ground arith

min_ℤ_le : (a b : ℤ) → min_ℤ a b ≤ℤ b
unfolding min_ℤ
min_ℤ_le a b = ground arith

clamp_ℤ_range : (v lo hi : ℤ) → lo ≤ℤ hi → (lo ≤ℤ clamp_ℤ v lo hi) × (clamp_ℤ v lo hi ≤ℤ hi)
unfolding clamp_ℤ
clamp_ℤ_range v lo hi h = ground arith

reversal_direction : (d last : Direction) → is_reversal d last ≡ true → last ≢ no_direction
reversal_direction up down e = λ f. cc
reversal_direction down up e = λ f. cc
reversal_direction up up e = λ f. cc
reversal_direction down down e = λ f. cc
reversal_direction up no_direction e = λ f. cc
reversal_direction down no_direction e = λ f. cc
reversal_direction no_direction last e = λ f. cc

evaluate-Adjusted :
    (now : ℕ) (requested : ℤ) (d : Direction) (c : Controller)
    → Inv c
    → Adjusted c (evaluate now requested d c)
unfolding evaluate
evaluate-Adjusted now requested d c v =
    let target : ℤ = clamp_ℤ requested c.min_level c.max_level in
    ground (
      arith,
      clamp_ℤ_range requested c.min_level c.max_level,
      min_ℤ_range target c.last_target_level c.min_level c.max_level,
      reversal_direction d c.last_direction,
    )

on-Adjusted :
    (p : Pressure) (now : ℕ) (current : ℤ) (c : Controller)
    → Inv c
    → Adjusted c (on p now current c)
unfolding on
on-Adjusted upstream_full now current c v = evaluate-Adjusted now (current +ℤ pos 1) up c v
on-Adjusted downstream_full now current c v = evaluate-Adjusted now (current +ℤ pos 1) up c v
on-Adjusted downstream_empty_then_upstream_full now current c v =
    evaluate-Adjusted now (current -ℤ pos 1) down c v

-- The levels of a compressor that reports pressure at some times.
pub compress_levels : List (ℕ × Pressure) → ℤ → Controller → ℤ × Controller
compress_levels [] current c = (current, c)
compress_levels ((now, p) ∷ events) current c =
    let (c', d) = on p now current c in compress_levels events (apply_decision current d) c'

module _ {min_level max_level : ℤ} where
  compress_levels_range :
      (events : List (ℕ × Pressure)) (current : ℤ) (c : Controller)
      → c.min_level ≡ min_level
      → c.max_level ≡ max_level
      → Inv c
      → let r = compress_levels events current c in
        Inv r.1 × ((r.0 ≡ current) ⊎ ((min_level ≤ℤ r.0) × (r.0 ≤ℤ max_level)))
  unfolding compress_levels
  compress_levels_range [] current c e f v = (v, inl refl)
  compress_levels_range ((now, p) ∷ events) current c e f v = ground (
    arith,
    on-Adjusted p now current c v,
    compress_levels_range events (apply_decision current (on p now current c).1)
        (on p now current c).0,
  )

-- Whatever pressure is reported, and whenever, the compressor stays at the level that it was
-- started with, which may be outside, or is at one between 1 and 12.
pub compress_levels_bounds :
    (events : List (ℕ × Pressure)) (initial : ℤ)
    → let r =
        compress_levels events initial (init initial min_adaptive_level max_adaptive_level none) in
      (r.0 ≡ initial) ⊎ ((min_adaptive_level ≤ℤ r.0) × (r.0 ≤ℤ max_adaptive_level))
unfolding init
compress_levels_bounds events initial =
    (compress_levels_range events initial (init initial min_adaptive_level max_adaptive_level none)
      refl refl (ground arith)).1

-- With the last target in range, a step that turns the direction round, once the cooldown is over,
-- goes to a level in range, to at most the last target and doubles the cooldown: an upward step
-- after a downward one does not raise the level.
pub evaluate_reversal :
    (now : ℕ) (requested : ℤ) (d : Direction) (c : Controller)
    → Inv c
    → is_reversal d c.last_direction ≡ true
    → cooling_down c now ≡ false
    → let r = evaluate now requested d c in
      (r.1.level ≤ℤ c.last_target_level)
      × (r.0.current_cooldown ≡ c.current_cooldown * 2)
      × (r.0.last_target_level ≡ r.1.level)
      × InRange c r.1.level
unfolding evaluate
evaluate_reversal now requested d c v e h =
    let target : ℤ = clamp_ℤ requested c.min_level c.max_level in
    ground (
      arith,
      clamp_ℤ_range requested c.min_level c.max_level,
      min_ℤ_range target c.last_target_level c.min_level c.max_level,
      min_ℤ_le target c.last_target_level,
      reversal_direction d c.last_direction e,
    )
