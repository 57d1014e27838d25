-- ===== src/Base/Tests.antt =====
-- Boolean tests. `a == b` computes to a decision, so a branch knows the equation it tested.
use Prim.Native.Nat.{ℕ, compare, Ordering}
use Prim.Native.String.{String}
use mathlib.Core.Path.{◌≡◌, refl}
use mathlib.Core.Logic.{◌⊎◌, inl, inr}
use mathlib.Core.Bool.{Bool, true, false}
use mathlib.Core.Option.{Option, none, some}
use native.Mathlib.Omega.{arith}
use native.Mathlib.Decide.{ℕ_discrete}
use text.Mathlib.Text.{◌==◌ as str_eq}
use text.Mathlib.TextEquality.{eq_iff}

-- What `==` of the program compares.
pub record DecEq {ℓ} (A : Type ℓ) : Type ℓ where
  pub dec : Discrete A

to_dec : (a b : String) (t : Bool) → str_eq a b ≡ t → Dec (a ≡ b)
to_dec a b true h = yes ((eq_iff a b).0 h)
to_dec a b false h = no (λ e. cc ((eq_iff a b).1 e))

unfoldable pub string_discrete : Discrete String
unfolding to_dec
string_discrete a b = to_dec a b (str_eq a b) refl

instance abbrev pub string_dec_eq : DecEq String
string_dec_eq = record { dec = string_discrete }

instance abbrev pub nat_dec_eq : DecEq ℕ
nat_dec_eq = record { dec = ℕ_discrete }

infix 50 ◌==◌
abbrev pub ◌==◌ {ℓ} : {A : Type ℓ} ⦃e : DecEq A⦄ → A → A → Bool
◌==◌ ⦃e⦄ a b = elim (e.dec a b) [ yes _ ↦ true | no _ ↦ false ]

pub ==_refl {ℓ} : {A : Type ℓ} ⦃e : DecEq A⦄ (a : A) → (a == a) ≡ true
==_refl ⦃e⦄ a = ground arith

pub ==_sound {ℓ} : {A : Type ℓ} ⦃e : DecEq A⦄ (a b : A) → (a == b) ≡ true → a ≡ b
==_sound ⦃e⦄ a b h = ground arith

abbrev pub ltb : ℕ → ℕ → Bool
ltb a b = elim (compare a b) [ Ordering.lt ↦ true | _ ↦ false ]

abbrev pub leb : ℕ → ℕ → Bool
leb a b = elim (compare a b) [ Ordering.gt ↦ false | _ ↦ true ]

infix 1 if◌then◌else◌
abbrev pub if◌then◌else◌ {ℓ} : {A : Type ℓ} → Bool → A → A → A
if true then x else y = x
if false then x else y = y

pub Bool-cases : (b : Bool) → (b ≡ true) ⊎ (b ≡ false)
Bool-cases true = inl refl
Bool-cases false = inr refl

pub Option-cases {ℓ} : {A : Type ℓ} (o : Option A) → (o ≡ none) ⊎ ((a : A) × (o ≡ some a))
Option-cases none = inl refl
Option-cases (some a) = inr (a, refl)
