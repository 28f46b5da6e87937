-- ===== src/Adaptive/Examples.antt =====
-- Runs of the theorems on the level controller at concrete inputs.
use sora_transport.Prelude.{ℕ, ◌+◌, ◌*◌, ◌≡◌, ◌≤◌, ◌⊎◌, refl, none, some, List, [], ◌∷◌, arith}
use sora_transport.Prelude.Int.{ℤ, pos, ◌≤ℤ◌}
use sora_transport.Adaptive.{
  Controller, down, Pressure, upstream_full, downstream_empty_then_upstream_full, init,
  min_adaptive_level, max_adaptive_level, base_cooldown,
}
use sora_transport.Adaptive.Level.{compress_levels, compress_levels_bounds}
use sora_transport.Adaptive.Cooldown.{LastAt, adjustments, adjustments_spacing}

abbrev events : List (ℕ × Pressure)
events =
    (0, upstream_full)
    ∷ (10, upstream_full)
    ∷ (2_000_000_000, downstream_empty_then_upstream_full)
    ∷ []

compress_levels_bounds_example :
    let r =
      compress_levels events (pos 3) (init (pos 3) min_adaptive_level max_adaptive_level none) in
    (r.0 ≡ pos 3) ⊎ ((min_adaptive_level ≤ℤ r.0) × (r.0 ≤ℤ max_adaptive_level))
compress_levels_bounds_example = compress_levels_bounds events (pos 3)

-- It went down to level 5 at 10 s.
abbrev lowered : Controller
lowered = record {
  min_level = pos 1;
  max_level = pos 12;
  active_level = none;
  last_direction = down;
  last_target_level = pos 5;
  current_cooldown = base_cooldown;
  last_adjustment = some 10_000_000_000;
}

abbrev reports : List (Pressure × ℕ × ℤ)
reports = (upstream_full, 12_000_000_000, pos 5) ∷ (upstream_full, 12_000_000_001, pos 5) ∷ []

adjustments_spacing_example :
    let r = adjustments reports lowered in
    (u : ℕ) × LastAt u r.0 × (10_000_000_000 + r.1 * base_cooldown ≤ u)
adjustments_spacing_example = adjustments_spacing reports lowered 10_000_000_000 (refl, omega arith)
