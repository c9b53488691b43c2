-- ===== src/Common/Results.antt =====
-- Exceptions as values: `err` carries what was raised.
use mathlib.Core.Path.{◌≡◌, refl}
use mathlib.Core.Bool.{Bool, true, false}

pub data Result {ℓ κ} (Raised : Type ℓ) (Value : Type κ) : Type (ℓ ⊔ κ) where
  err : Raised → Result Raised Value
  ok : Value → Result Raised Value

infixl 5 ◌>>=◌
-- What follows a call that may raise.
abbrev pub ◌>>=◌ : {R V W : Type 0} → Result R V → (V → Result R W) → Result R W
err raised >>= next = err raised
ok value >>= next = next value

-- if not condition: raise
abbrev pub require : {R : Type 0} → Bool → R → Result R (Unit {0})
require false raised = err raised
require true raised = ok tt

infixl 5 ◌>>◌
abbrev pub ◌>>◌ : {R W : Type 0} → Result R (Unit {0}) → Result R W → Result R W
check >> following = check >>= λ passed. following

pub require-eq-ok : {R : Type 0} (b : Bool) (raised : R) → require b raised ≡ ok tt → b ≡ true
require-eq-ok false raised returned = cc
require-eq-ok true raised returned = refl

pub >>=-eq-ok :
    {R V W : Type 0} (call : Result R V) (next : V → Result R W) {result : W}
    → (call >>= next) ≡ ok result
    → (value : V) × (call ≡ ok value) × (next value ≡ ok result)
>>=-eq-ok (err raised) next returned = cc
>>=-eq-ok (ok value) next returned = (value, refl, returned)
