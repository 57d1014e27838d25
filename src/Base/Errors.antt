-- ===== src/Base/Errors.antt =====
-- Exceptions as values: `raise` is `err`, a statement that may raise is bound by `>>=`.
use mathlib.Core.Path.{◌≡◌, refl}
use mathlib.Core.Logic.{◌⊎◌, inl, inr}
use mathlib.Core.Bool.{Bool, true, false}
use mathlib.Core.Option.{Option, none, some}

pub data Result {ℓ κ} (E : Type ℓ) (A : Type κ) : Type (ℓ ⊔ κ) where
  ok : A → Result E A
  err : E → Result E A

-- if o is None: raise failure
abbrev pub require {ℓ κ} : {E : Type ℓ} {X : Type κ} → Option X → E → Result E X
require (some x) failure = ok x
require none failure = err failure

infixl 5 ◌>>=◌
abbrev pub ◌>>=◌ {ℓ κ ι} :
    {E : Type ℓ} {X : Type κ} {Y : Type ι} → Result E X → (X → Result E Y) → Result E Y
err failure >>= rest = err failure
ok x >>= rest = rest x

-- if not condition: raise failure
abbrev pub guard {ℓ} : {E : Type ℓ} → Bool → E → Result E (Unit {0})
guard false failure = err failure
guard true failure = ok tt

-- Two statements in a row, of which the first gives nothing.
infixl 5 ◌>>◌
abbrev pub ◌>>◌ {ℓ ι} : {E : Type ℓ} {Y : Type ι} → Result E (Unit {0}) → Result E Y → Result E Y
check >> rest = check >>= λ _. rest

-- What a successful bind says of its parts.
pub >>=-eq-ok {ℓ κ ι} :
    {E : Type ℓ} {X : Type κ} {Y : Type ι} (action : Result E X) (rest : X → Result E Y) {y : Y}
    → (action >>= rest) ≡ ok y
    → (x : X) × (action ≡ ok x) × (rest x ≡ ok y)
>>=-eq-ok (err failure) rest done = cc
>>=-eq-ok (ok x) rest done = (x, refl, done)

pub guard-eq-ok {ℓ} : {E : Type ℓ} (b : Bool) (e : E) {u : Unit {0}} → guard b e ≡ ok u → b ≡ true
guard-eq-ok true e h = refl
guard-eq-ok false e h = cc

-- To split on a computed result and keep the equation.
pub Result-cases {ℓ κ} :
    {E : Type ℓ} {A : Type κ} (m : Result E A) → ((a : A) × (m ≡ ok a)) ⊎ ((e : E) × (m ≡ err e))
Result-cases (ok a) = inl (a, refl)
Result-cases (err e) = inr (e, refl)
