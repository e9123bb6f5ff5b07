-- ===== src/Prelude/Result.antt =====
-- A value, or the message of the error that was thrown.
use Prim.Native.String.{String}
use mathlib.Core.Path.{◌≡◌, refl}
use mathlib.Core.Bool.{Bool, true, false}

pub data Result {ℓ} (V : Type ℓ) : Type ℓ where
  ok : V → Result V
  error : String → Result V

infixl 5 ◌>>=◌ ◌>>◌
abbrev pub ◌>>=◌ {ℓ κ} : {V : Type ℓ} {W : Type κ} → Result V → (V → Result W) → Result W
ok value >>= then = then value
error message >>= then = error message

abbrev pub ◌>>◌ {ℓ} : {W : Type ℓ} → Result (Unit {0}) → Result W → Result W
check >> then = check >>= λ done. then

-- `assert(test, message)`
abbrev pub assert : Bool → String → Result (Unit {0})
assert true message = ok tt
assert false message = error message

-- The value of a chain whose first step succeeded.
pub >>=-eq-ok {ℓ κ} :
    {V : Type ℓ} {W : Type κ} (first : Result V) (then : V → Result W) {last : W}
    → (first >>= then) ≡ ok last
    → (value : V) × (first ≡ ok value) × (then value ≡ ok last)
>>=-eq-ok (ok value) then run = (value, refl, run)
>>=-eq-ok (error message) then run = cc
