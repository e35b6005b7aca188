-- ===== src/Prelude/Runs.antt =====
-- How a call of the C code ends: with a value, or stopped.
use mathlib.Core.Path.{◌≡◌, refl}
use mathlib.Core.Bool.{Bool, true, false}

-- `assertion`: assert() or panic() failed. `exited`: exit() was called. `undefined`: the code
-- reads or writes outside an array or divides by zero. `out_of_fuel` has no counterpart in the code.
pub data Stop : Type 0 where
  assertion exited undefined out_of_fuel : Stop

pub data Outcome {ℓ} (A : Type ℓ) : Type ℓ where
  ok : A → Outcome A
  stop : Stop → Outcome A

-- assert(b), and the other conditions under which a call goes on.
abbrev pub guard : (b : Bool) → Stop → Outcome (Unit {0})
guard false why = stop why
guard true why = ok tt

-- What follows a call that returned; the rest is left out after one that did not.
infixl 5 ◌>>=◌
abbrev pub ◌>>=◌ {ℓ₁ ℓ₂} : {X : Type ℓ₁} {Y : Type ℓ₂} (m : Outcome X) → (X → Outcome Y) → Outcome Y
stop why >>= next = stop why
ok x >>= next = next x

infixl 5 ◌>>◌
abbrev pub ◌>>◌ {ℓ₁} : {Y : Type ℓ₁} (m : Outcome (Unit {0})) → Outcome Y → Outcome Y
m >> next = m >>= (λ done. next)

-- A chain that returns is a call that returned and a rest that returned.
pub >>=-eq-ok {ℓ₁ ℓ₂} :
    {X : Type ℓ₁} {Y : Type ℓ₂} (m : Outcome X) (next : X → Outcome Y) {y : Y}
    → (m >>= next) ≡ ok y
    → (x : X) × (m ≡ ok x) × (next x ≡ ok y)
>>=-eq-ok (stop why) next e = cc
>>=-eq-ok (ok x) next e = (x, refl, e)
