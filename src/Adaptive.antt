-- ===== src/Adaptive.antt =====
-- `AdaptiveLevelController` (src/detail2/zstd.hpp and zstd.cpp): when the compression level is
-- changed. Times and the cooldown are in nanoseconds of the steady clock; the reading `now` is an
-- argument. Logging is left out, and with it the queue sizes, which are only logged.
pub mod Level
pub mod Cooldown
mod Examples
use sora_transport.Prelude.{
  ℕ, ◌-◌, ◌*◌, Bool, true, false, Option, none, some, List, [], ◌∷◌, ltb, if◌then◌else◌,
}
use sora_transport.Prelude.Int.{ℤ, pos, negsuc, ◌+ℤ◌, ◌-ℤ◌, min_ℤ, clamp_ℤ}

pub data Direction : Type 0 where
  no_direction up down : Direction

abbrev pub min_adaptive_level : ℤ
min_adaptive_level = pos 1

abbrev pub max_adaptive_level : ℤ
max_adaptive_level = pos 12

abbrev pub base_cooldown : ℕ
base_cooldown = 1_000_000_000

pub record Decision : Type 0 where
  pub level : ℤ
  pub changed : Bool

-- `last_adjustment` is `none` for `time_point::min()`, and `active_level` for a null pointer.
pub record Controller : Type 0 where
  pub min_level : ℤ
  pub max_level : ℤ
  pub active_level : Option ℤ
  pub last_direction : Direction
  pub last_target_level : ℤ
  pub current_cooldown : ℕ
  pub last_adjustment : Option ℕ

unfoldable pub init : ℤ → ℤ → ℤ → Option ℤ → Controller
init initial_level min_level max_level active_level = record {
  min_level = min_level;
  max_level = max_level;
  active_level = active_level;
  last_direction = no_direction;
  last_target_level = initial_level;
  current_cooldown = base_cooldown;
  last_adjustment = none;
}

abbrev pub cooling_down : Controller → ℕ → Bool
cooling_down c now = elim c.last_adjustment [
  | none ↦ false
  | some last ↦ ltb (now - last) c.current_cooldown
]

-- Both directions are set and they differ.
abbrev pub is_reversal : Direction → Direction → Bool
is_reversal up down = true
is_reversal down up = true
is_reversal _ _ = false

abbrev store_level : Option ℤ → ℤ → Option ℤ
store_level none level = none
store_level (some old) level = some level

-- The rest of `evaluate`, from the target level and the new cooldown on.
unfoldable pub adjust : ℕ → Direction → ℤ → ℕ → Controller → Controller × Decision
adjust now direction target cooldown c = (
  record c {
    active_level = store_level c.active_level target;
    last_direction = direction;
    last_target_level = target;
    current_cooldown = cooldown;
    last_adjustment = some now;
  },
  record { level = target; changed = true },
)

unfoldable pub evaluate : ℕ → ℤ → Direction → Controller → Controller × Decision
unfolding adjust
evaluate now requested direction c =
    let target = clamp_ℤ requested c.min_level c.max_level in
    if cooling_down c now
    then (c, record { level = requested; changed = false })
    else if is_reversal direction c.last_direction
    then adjust now direction (min_ℤ target c.last_target_level) (c.current_cooldown * 2) c
    else adjust now direction target base_cooldown c

-- What the compressor reports.
pub data Pressure : Type 0 where
  upstream_full downstream_full downstream_empty_then_upstream_full : Pressure

unfoldable pub on : Pressure → ℕ → ℤ → Controller → Controller × Decision
on upstream_full now current c = evaluate now (current +ℤ pos 1) up c
on downstream_full now current c = evaluate now (current +ℤ pos 1) up c
on downstream_empty_then_upstream_full now current c = evaluate now (current -ℤ pos 1) down c

-- What the compressor does with a decision: its level from then on.
abbrev pub apply_decision : ℤ → Decision → ℤ
apply_decision current d = if d.changed then d.level else current
