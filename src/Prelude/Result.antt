-- ===== src/Prelude/Result.antt =====
-- How a C++ function ends that may throw: it returns a value, or an exception leaves it.
use mathlib.Core.Path.{◌≡◌, refl}

pub data Result {ℓ} (Exception Value : Type ℓ) : Type ℓ where
  err : Exception → Result Exception Value
  ok : Value → Result Exception Value

-- The next statement runs only if this one returned.
infixl 5 ◌>>=◌
abbrev pub ◌>>=◌ {ℓ} :
    {Exception V W : Type ℓ} → Result Exception V → (V → Result Exception W) → Result Exception W
err thrown >>= next = err thrown
ok value >>= next = next value

-- Two statements that returned: what the first one gave, and how the second one ended.
pub >>=-ok {ℓ} :
    {Exception V W : Type ℓ} (first : Result Exception V) (next : V → Result Exception W) {w : W}
    → (first >>= next) ≡ ok w
    → (v : V) × (first ≡ ok v) × (next v ≡ ok w)
>>=-ok (err thrown) next returned = cc
>>=-ok (ok value) next returned = (value, refl, returned)
