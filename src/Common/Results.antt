-- ===== src/Common/Results.antt =====
-- Python code that may raise, as a value: the result or the exception that ended the call.
use mathlib.Core.Path.{◌≡◌, refl}
use mathlib.Core.Logic.{◌⊎◌, inl, inr}
use mathlib.Core.Bool.{Bool, true, false}

-- `E` is the component's type of exceptions.
pub data Result {κ} (E : Type 0) (Value : Type κ) : Type κ where
  err : (raised : E) → Result E Value
  ok : (value : Value) → Result E Value

-- `if test: raise e`
abbrev pub raise_if : {E : Type 0} (test : Bool) (raised : E) → Result E (Unit {0})
raise_if test raised = elim test [ true ↦ err raised | false ↦ ok tt ]

-- The rest of a block runs on the value, where there is one.
infixl 5 ◌>>=◌
abbrev pub ◌>>=◌ {κ ι} :
    {E : Type 0} {Value : Type κ} {Next : Type ι} (call : Result E Value)
    (rest : Value → Result E Next)
    → Result E Next
err raised >>= rest = err raised
ok value >>= rest = rest value

infixl 5 ◌>>◌
abbrev pub ◌>>◌ {ι} :
    {E : Type 0} {Next : Type ι} → Result E (Unit {0}) → Result E Next → Result E Next
check >> rest = check >>= λ _. rest

-- A block that ends well ran its call to a value, and the rest on that value.
pub >>=-eq-ok {κ ι} :
    {E : Type 0} {Value : Type κ} {Next : Type ι} {answer : Next} (call : Result E Value)
    (rest : Value → Result E Next)
    → (call >>= rest) ≡ ok answer
    → (value : Value) × (call ≡ ok value) × (rest value ≡ ok answer)
>>=-eq-ok (err raised) rest ends = cc
>>=-eq-ok (ok value) rest ends = (value, refl, ends)

pub ok-injective {ℓ} :
    {E : Type 0} {A : Type ℓ} {a b : A} → ◌≡◌ {A = Result E A} (ok a) (ok b) → a ≡ b
ok-injective h = cc

pub Result-cases {ℓ} :
    {E : Type 0} {A : Type ℓ} (r : Result E A) → ((a : A) × (r ≡ ok a)) ⊎ ((e : E) × (r ≡ err e))
Result-cases (ok a) = inl (a, refl)
Result-cases (err e) = inr (e, refl)
