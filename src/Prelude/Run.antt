-- ===== src/Prelude/Run.antt =====
-- How a call on some state ends: it leaves a state, and it returns, throws, or ran out of the fuel
-- of a loop, which is no behaviour of the program.
use mathlib.Core.Path.{◌≡◌, refl}
use sora_transport.Prelude.Tests.{if◌then◌else◌}
use mathlib.Core.Bool.{Bool, true, false}

pub data Ending (Error : Type 0) : Type 0 where
  returned : Ending Error
  threw : Error → Ending Error
  out_of_fuel : Ending Error

abbrev pub Run : Type 0 → Type 0 → Type 0
Run State Error = State × Ending Error

-- The next statement runs only if this one returned.
infixl 5 ◌andthen◌
abbrev pub ◌andthen◌ : {S E : Type 0} → Run S E → (S → Run S E) → Run S E
(s, returned) andthen next = next s
(s, threw e) andthen next = (s, threw e)
(s, out_of_fuel) andthen next = (s, out_of_fuel)

-- `Good` holds of the state left where the call returns, `Bad` where it throws, and it ends.
abbrev pub Ends : {S E : Type 0} → (S → Type 0) → (S → Type 0) → Run S E → Type 0
Ends Good Bad (s, returned) = Good s
Ends Good Bad (s, threw e) = Bad s
Ends Good Bad (s, out_of_fuel) = ⊥

pub andthen-Ends :
    {S E : Type 0} (Good Bad Good' Bad' : S → Type 0) (r : Run S E) (next : S → Run S E)
    → Ends Good Bad r
    → ((s : S) → Bad s → Bad' s)
    → ((s : S) → Good s → Ends Good' Bad' (next s))
    → Ends Good' Bad' (r andthen next)
andthen-Ends Good Bad Good' Bad' (s, returned) next h weaken after = after s h
andthen-Ends Good Bad Good' Bad' (s, threw e) next h weaken after = weaken s h
andthen-Ends Good Bad Good' Bad' (s, out_of_fuel) next h weaken after = absurd h

pub Ends-weaken :
    {S E : Type 0} (Good Bad Good' Bad' : S → Type 0) (r : Run S E)
    → Ends Good Bad r
    → ((s : S) → Good s → Good' s)
    → ((s : S) → Bad s → Bad' s)
    → Ends Good' Bad' r
Ends-weaken Good Bad Good' Bad' (s, returned) h good bad = good s h
Ends-weaken Good Bad Good' Bad' (s, threw e) h good bad = bad s h
Ends-weaken Good Bad Good' Bad' (s, out_of_fuel) h good bad = absurd h

pub if-Ends :
    {S E : Type 0} (Good Bad : S → Type 0) (b : Bool) (x y : Run S E)
    → (b ≡ true → Ends Good Bad x)
    → (b ≡ false → Ends Good Bad y)
    → Ends Good Bad (if b then x else y)
if-Ends Good Bad true x y h k = h refl
if-Ends Good Bad false x y h k = k refl

pub andthen_assoc :
    {S E : Type 0} (r : Run S E) (f g : S → Run S E)
    → ((r andthen f) andthen g) ≡ (r andthen (λ s. f s andthen g))
andthen_assoc (s, returned) f g = refl
andthen_assoc (s, threw e) f g = refl
andthen_assoc (s, out_of_fuel) f g = refl
