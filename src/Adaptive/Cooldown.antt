-- ===== src/Adaptive/Cooldown.antt =====
-- How often the level is changed.
use sora_transport.Prelude.{ℕ, ◌+◌, ◌*◌, ◌≤◌, ◌≡◌, some, List, [], ◌∷◌, if◌then◌else◌, arith}
use sora_transport.Prelude.Int.{ℤ, ◌+ℤ◌, ◌-ℤ◌, pos}
use sora_transport.Adaptive.{
  Direction, up, down, Decision, Controller, cooling_down, evaluate, Pressure, upstream_full,
  downstream_full, downstream_empty_then_upstream_full, on, base_cooldown,
}

-- The time of the last adjustment, counted from the time `t` of an earlier one.
abbrev pub LastAt : ℕ → Controller → Type 0
LastAt t c = (c.last_adjustment ≡ some t) × (base_cooldown ≤ c.current_cooldown)

abbrev pub count : Decision → ℕ
count d = if d.changed then 1 else 0

-- An evaluation leaves the last adjustment alone, or comes a second or more after it.
evaluate_spacing :
    (now : ℕ) (requested : ℤ) (d : Direction) (c : Controller) (t : ℕ)
    → LastAt t c
    → let r = evaluate now requested d c in
      (u : ℕ) × LastAt u r.0 × (t + count r.1 * base_cooldown ≤ u)
unfolding evaluate
evaluate_spacing now requested d c t h =
    (if cooling_down c now then t else now, ground arith, ground arith)

on_spacing :
    (p : Pressure) (now : ℕ) (current : ℤ) (c : Controller) (t : ℕ)
    → LastAt t c
    → let r = on p now current c in (u : ℕ) × LastAt u r.0 × (t + count r.1 * base_cooldown ≤ u)
unfolding on
on_spacing upstream_full now current c t h = evaluate_spacing now (current +ℤ pos 1) up c t h
on_spacing downstream_full now current c t h = evaluate_spacing now (current +ℤ pos 1) up c t h
on_spacing downstream_empty_then_upstream_full now current c t h =
    evaluate_spacing now (current -ℤ pos 1) down c t h

-- A history of reports, each with the clock reading and the level of the time: the controller
-- after it and the number of adjustments.
pub adjustments : List (Pressure × ℕ × ℤ) → Controller → Controller × ℕ
adjustments [] c = (c, 0)
adjustments ((p, now, current) ∷ reports) c =
    let (c', d) = on p now current c in let (c'', n) = adjustments reports c' in (c'', count d + n)

-- From one adjustment at time `t` on, the adjustments up to the last one, at `u`, are at least a
-- second apart: `n` of them take `n` seconds or more.
pub adjustments_spacing :
    (reports : List (Pressure × ℕ × ℤ)) (c : Controller) (t : ℕ)
    → LastAt t c
    → let r = adjustments reports c in (u : ℕ) × LastAt u r.0 × (t + r.1 * base_cooldown ≤ u)
unfolding adjustments
adjustments_spacing [] c t h = (t, h, omega arith)
adjustments_spacing ((p, now, current) ∷ reports) c t h =
    let (u, k, e) = on_spacing p now current c t h in
    let (w, l, f) = adjustments_spacing reports (on p now current c).0 u k in (w, l, omega arith)
