-- ===== src/Prelude/Tests.antt =====
-- Boolean tests on the native numbers, and the conditional.
use Prim.Native.Nat.{ℕ, ◌≤◌, ◌<◌, compare, Ordering}
use mathlib.Core.Path.{◌≡◌, refl}
use mathlib.Core.Logic.{◌⊎◌, inl, inr}
use mathlib.Core.Bool.{Bool, true, false}
use mathlib.Core.Option.{Option, none, some}
use native.Mathlib.Omega.{arith}

abbrev pub ltb : ℕ → ℕ → Bool
ltb a b = elim (compare a b) [ Ordering.lt ↦ true | _ ↦ false ]

abbrev pub leb : ℕ → ℕ → Bool
leb a b = elim (compare a b) [ Ordering.gt ↦ false | _ ↦ true ]

infix 50 ◌==◌
abbrev pub ◌==◌ : ℕ → ℕ → Bool
a == b = elim (compare a b) [ Ordering.eq ↦ true | _ ↦ false ]

infix 1 if◌then◌else◌
abbrev pub if◌then◌else◌ {ℓ} : {A : Type ℓ} → Bool → A → A → A
if true then x else y = x
if false then x else y = y

pub ltb→lt : (a b : ℕ) → ltb a b ≡ true → a < b
ltb→lt a b h = ground arith

pub lt→ltb : (a b : ℕ) → a < b → ltb a b ≡ true
lt→ltb a b h = ground arith

pub le→leb : (a b : ℕ) → a ≤ b → leb a b ≡ true
le→leb a b h = ground arith

pub leb→le : (a b : ℕ) → leb a b ≡ true → a ≤ b
leb→le a b h = ground arith

pub gt→leb : (a b : ℕ) → b < a → leb a b ≡ false
gt→leb a b h = ground arith

pub gt→ltb : (a b : ℕ) → b ≤ a → ltb a b ≡ false
gt→ltb a b h = ground arith

pub Bool-cases : (b : Bool) → (b ≡ true) ⊎ (b ≡ false)
Bool-cases true = inl refl
Bool-cases false = inr refl

pub Option-cases {ℓ} : {A : Type ℓ} (o : Option A) → (o ≡ none) ⊎ ((a : A) × (o ≡ some a))
Option-cases none = inl refl
Option-cases (some a) = inr (a, refl)

-- What holds of both branches holds of the conditional.
pub if_both {ℓ κ} :
    {A : Type ℓ} (P : A → Type κ) (b : Bool) (x y : A) → P x → P y → P (if b then x else y)
if_both P true x y p q = p
if_both P false x y p q = q

-- The same with the test's outcome known in each branch, for `if` and for an `elim` on a test or on
-- an option.
module _ {ℓ κ} {A : Type ℓ} (P : A → Type κ) where
  pub if_cases :
      (b : Bool) (x y : A) → (b ≡ true → P x) → (b ≡ false → P y) → P (if b then x else y)
  if_cases true x y p q = p refl
  if_cases false x y p q = q refl

  pub bool_cases :
      (b : Bool) (x y : A)
      → (b ≡ true → P x)
      → (b ≡ false → P y)
      → P (elim b [ true ↦ x | false ↦ y ])
  bool_cases true x y p q = p refl
  bool_cases false x y p q = q refl

  pub option_cases {μ} :
      {B : Type μ} (o : Option B) (x : A) (y : B → A)
      → (o ≡ none → P x)
      → ((b : B) → o ≡ some b → P (y b))
      → P (elim o [ none ↦ x | some b ↦ y b ])
  option_cases none x y p q = p refl
  option_cases (some b) x y p q = q b refl
