-- ===== src/Prelude/Errors.antt =====
-- Results with errors: Python's early `return` and `raise` as values.
use mathlib.Core.Path.{◌≡◌, refl}
use mathlib.Core.Logic.{◌⊎◌, inl, inr}
use mathlib.Core.Bool.{Bool, true, false}
use mathlib.Core.Option.{Option, none, some}

-- What a function raises, or what it returns.
pub data Result {ε α} (Error : Type ε) (Value : Type α) : Type (ε ⊔ α) where
  err : Error → Result Error Value
  ok : Value → Result Error Value

-- `if not test: raise error`
abbrev pub guard {ε} : {Error : Type ε} → Bool → Error → Result Error (Unit {0})
guard false error = err error
guard true error = ok tt

-- `if value is None: raise error`
abbrev pub or_fail {ε α} :
    {Error : Type ε} {Value : Type α} → Option Value → Error → Result Error Value
or_fail (some value) error = ok value
or_fail none error = err error

infixl 5 ◌>>=◌ ◌>>◌
abbrev pub ◌>>=◌ {ε α β} :
    {Error : Type ε} {Value : Type α} {Next : Type β}
    → Result Error Value
    → (Value → Result Error Next)
    → Result Error Next
err error >>= next = err error
ok value >>= next = next value

abbrev pub ◌>>◌ {ε β} :
    {Error : Type ε} {Next : Type β}
    → Result Error (Unit {0})
    → Result Error Next
    → Result Error Next
check >> next = check >>= λ _. next

-- A chain that returns has passed its first check.
pub >>=-eq-ok {ε α β} :
    {Error : Type ε} {Value : Type α} {Next : Type β} (check : Result Error Value)
    (next : Value → Result Error Next) {last : Next}
    → (check >>= next) ≡ ok last
    → (value : Value) × (check ≡ ok value) × (next value ≡ ok last)
>>=-eq-ok (err error) next returns = cc
>>=-eq-ok (ok value) next returns = (value, refl, returns)

pub Result-cases {ℓ κ} :
    {E : Type ℓ} {A : Type κ} (r : Result E A) → ((a : A) × (r ≡ ok a)) ⊎ ((e : E) × (r ≡ err e))
Result-cases (ok a) = inl (a, refl)
Result-cases (err e) = inr (e, refl)

pub guard-eq-ok {ℓ} : {E : Type ℓ} (b : Bool) (e : E) {u : Unit {0}} → guard b e ≡ ok u → b ≡ true
guard-eq-ok true e h = refl
guard-eq-ok false e h = cc

pub ok-injective {ℓ κ} :
    {E : Type ℓ} {A : Type κ} {a b : A} → ◌≡◌ {A = Result E A} (ok a) (ok b) → a ≡ b
ok-injective h = cc

pub or_fail-eq-ok {ε α} :
    {E : Type ε} {A : Type α} (o : Option A) (e : E) {a : A} → or_fail o e ≡ ok a → o ≡ some a
or_fail-eq-ok none e h = cc
or_fail-eq-ok (some b) e h = cc
