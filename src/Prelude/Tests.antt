-- ===== src/Prelude/Tests.antt =====
-- Boolean tests on numbers and texts, and the conditional.
use Prim.Native.Nat.{ℕ, compare, Ordering}
use Prim.Native.String.{String}
use mathlib.Core.Path.{◌≡◌, refl}
use mathlib.Core.Logic.{◌≢◌, ◌⊎◌, inl, inr, ite, dite}
use mathlib.Core.Bool.{Bool, true, false, Bool-discrete}
use mathlib.Core.Option.{Option, none, some}
use native.Mathlib.Omega.{arith}
use text.Mathlib.Text
use text.Mathlib.TextEquality.{eq_iff}

abbrev pub ltb : ℕ → ℕ → Bool
ltb a b = elim (compare a b) [ Ordering.lt ↦ true | _ ↦ false ]

abbrev pub leb : ℕ → ℕ → Bool
leb a b = elim (compare a b) [ Ordering.gt ↦ false | _ ↦ true ]

infix 1 if◌then◌else◌
abbrev pub if◌then◌else◌ {ℓ} : {A : Type ℓ} → Bool → A → A → A
if true then x else y = x
if false then x else y = y

-- Equality of texts, kept shut in proofs: a split on it yields the equation or its negation.
unfoldable pub String-discrete : Discrete String
String-discrete s t =
    dite (Bool-discrete (Text.◌==◌ s t) true) (λ same. yes ((eq_iff s t).0 same))
      (λ differ. no (λ p. differ ((eq_iff s t).1 p)))

-- Go's `==` on strings.
infix 50 ◌==◌
abbrev pub ◌==◌ : String → String → Bool
s == t = ite (String-discrete s t) true false

pub ==_refl : (s : String) → (s == s) ≡ true
==_refl s = ground arith

pub eq_of_== : (s t : String) → (s == t) ≡ true → s ≡ t
eq_of_== s t h = ground arith

pub ne_of_== : (s t : String) → (s == t) ≡ false → s ≢ t
ne_of_== s t h e = ground arith

-- To split on a computed value and keep the equation.
pub Bool-cases : (b : Bool) → (b ≡ true) ⊎ (b ≡ false)
Bool-cases true = inl refl
Bool-cases false = inr refl

pub Option-cases {ℓ} : {A : Type ℓ} (o : Option A) → (o ≡ none) ⊎ ((a : A) × (o ≡ some a))
Option-cases none = inl refl
Option-cases (some a) = inr (a, refl)

-- `v, ok := m[k]; if !ok { … }`: what happens without a value, and what happens with one.
abbrev pub on_some {ℓ κ} : {A : Type ℓ} {B : Type κ} → Option A → B → (A → B) → B
on_some none n k = n
on_some (some a) n k = k a

-- A property of a branch is proved on each side, with what the side knows of the test.
module _ {ℓ κ ι} {A : Type ℓ} {B : Type κ} (P : B → Type ι) where
  pub on_some-cases :
      {n : B} {k : A → B} (o : Option A)
      → (o ≡ none → P n)
      → ((a : A) → o ≡ some a → P (k a))
      → P (on_some o n k)
  on_some-cases none f g = f refl
  on_some-cases (some a) f g = g a refl

module _ {κ ι} {B : Type κ} (P : B → Type ι) where
  pub if-cases :
      {x y : B} (b : Bool) → (b ≡ true → P x) → (b ≡ false → P y) → P (if b then x else y)
  if-cases true f g = f refl
  if-cases false f g = g refl
