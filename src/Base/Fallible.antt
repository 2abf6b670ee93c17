-- ===== src/Base/Fallible.antt =====
-- Go's (value, error) pair: a value or one of the errors of the package at hand.
use mathlib.Core.Path.{◌≡◌, refl}
use mathlib.Core.Bool.{Bool, true, false}

pub data Outcome {ℓ κ} (E : Type κ) (A : Type ℓ) : Type (ℓ ⊔ κ) where
  ok : A → Outcome E A
  err : E → Outcome E A

infixl 5 ◌>>=◌ ◌>>◌
abbrev pub ◌>>=◌ {ε ℓ κ} :
    {E : Type ε} {A : Type ℓ} {B : Type κ} → Outcome E A → (A → Outcome E B) → Outcome E B
err fault >>= next = err fault
ok value >>= next = next value

abbrev pub ◌>>◌ {ε κ} : {E : Type ε} {B : Type κ} → Outcome E (Unit {0}) → Outcome E B → Outcome E B
first >> next = first >>= λ done. next

-- An error of one package that another passes on.
abbrev pub map_err {ε φ ℓ} :
    {E : Type ε} {F : Type φ} {A : Type ℓ} → (E → F) → Outcome E A → Outcome F A
map_err wrap (ok value) = ok value
map_err wrap (err fault) = err (wrap fault)

-- `if b { return e }`
abbrev pub fail_if {ε} : {E : Type ε} → Bool → E → Outcome E (Unit {0})
fail_if false fault = ok tt
fail_if true fault = err fault

-- A chain that ends well has gone well at its first step.
pub >>=-eq-ok {ε ℓ κ} :
    {E : Type ε} {A : Type ℓ} {B : Type κ} (first : Outcome E A) (next : A → Outcome E B)
    {result : B}
    → (first >>= next) ≡ ok result
    → (value : A) × (first ≡ ok value) × (next value ≡ ok result)
>>=-eq-ok (err fault) next well = cc
>>=-eq-ok (ok value) next well = (value, refl, well)

-- A guard that a good end has passed.
pub fail_if-eq-ok {ε κ} :
    {E : Type ε} {B : Type κ} (b : Bool) (fault : E) (rest : Outcome E B) {result : B}
    → (fail_if b fault >> rest) ≡ ok result
    → (b ≡ false) × (rest ≡ ok result)
fail_if-eq-ok false fault rest well = (refl, well)
fail_if-eq-ok true fault rest well = cc
