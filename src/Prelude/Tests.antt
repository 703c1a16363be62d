-- ===== src/Prelude/Tests.antt =====
-- Boolean tests on the native numbers, equality as an interface, the conditional.
use Prim.Native.Nat.{ℕ, compare, Ordering}
use mathlib.Core.Path.{◌≡◌, refl}
use mathlib.Core.Logic.{◌↔◌, ◌⊎◌, inl, inr}
use mathlib.Core.Bool.{Bool, true, false, ◌&&◌}
use mathlib.Core.Option.{Option, none, some}
use native.Mathlib.Omega.{arith}
use mathlib.Core.List.{List, [], ◌∷◌}

abbrev pub ltb : ℕ → ℕ → Bool
ltb a b = elim (compare a b) [ Ordering.lt ↦ true | _ ↦ false ]

abbrev pub leb : ℕ → ℕ → Bool
leb a b = elim (compare a b) [ Ordering.gt ↦ false | _ ↦ true ]

abbrev pub nat_beq : ℕ → ℕ → Bool
nat_beq a b = elim (compare a b) [ Ordering.eq ↦ true | _ ↦ false ]

pub nat_beq_iff : (a b : ℕ) → (nat_beq a b ≡ true) ↔ (a ≡ b)
nat_beq_iff a b = ground arith

pub record Eq {ℓ} (A : Type ℓ) : Type ℓ where
  pub is_same : A → A → Bool
  pub is_same_iff : (x y : A) → (is_same x y ≡ true) ↔ (x ≡ y)

instance abbrev pub nat_eq : Eq ℕ
nat_eq = record { is_same = nat_beq; is_same_iff = nat_beq_iff }

infix 1 if◌then◌else◌
abbrev pub if◌then◌else◌ {ℓ} : {A : Type ℓ} → Bool → A → A → A
if true then x else y = x
if false then x else y = y

infix 50 ◌==◌
abbrev pub ◌==◌ {ℓ} : {A : Type ℓ} ⦃e : Eq A⦄ → A → A → Bool
◌==◌ ⦃e⦄ = e.is_same

abbrev pub bytes_beq : List ℕ → List ℕ → Bool
bytes_beq (b ∷ bs) (c ∷ cs) = nat_beq b c && bytes_beq bs cs
bytes_beq (b ∷ bs) [] = false
bytes_beq [] (c ∷ cs) = false
bytes_beq [] [] = true

pub bytes_beq_iff : (xs ys : List ℕ) → (bytes_beq xs ys ≡ true) ↔ (xs ≡ ys)
bytes_beq_iff (b ∷ bs) (c ∷ cs) =
    let tails = bytes_beq_iff bs cs in (λ h. ground (arith, tails.0), λ h. ground (arith, tails.1))
bytes_beq_iff (b ∷ bs) [] = (λ h. cc, λ h. cc)
bytes_beq_iff [] (c ∷ cs) = (λ h. cc, λ h. cc)
bytes_beq_iff [] [] = (λ h. refl, λ h. refl)

instance abbrev pub bytes_eq : Eq (List ℕ)
bytes_eq = record { is_same = bytes_beq; is_same_iff = bytes_beq_iff }

-- Equality of keys as `ground` and `grind` read it.
pub eq_iff {ℓ} : {A : Type ℓ} ⦃e : Eq A⦄ (a b : A) → ((a == b) ≡ true) ↔ (a ≡ b)
eq_iff ⦃e⦄ a b = e.is_same_iff a b

pub eq_self {ℓ} : {A : Type ℓ} ⦃e : Eq A⦄ (a : A) → (a == a) ≡ true
eq_self a = (eq_iff a a).1 refl

-- To split on a computed value and keep the equation.
pub Bool-cases : (b : Bool) → (b ≡ true) ⊎ (b ≡ false)
Bool-cases true = inl refl
Bool-cases false = inr refl

pub Option-cases {ℓ} : {A : Type ℓ} (o : Option A) → (o ≡ none) ⊎ ((a : A) × (o ≡ some a))
Option-cases none = inl refl
Option-cases (some a) = inr (a, refl)

pub some_inj {ℓ} : {A : Type ℓ} {a b : A} → some a ≡ some b → a ≡ b
some_inj e = cc
