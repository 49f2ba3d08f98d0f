-- ===== src/Prelude/Equality.antt =====
-- Equality tests as an interface: `===` on the keys of a `Map`, on ids and on texts.
use Prim.Native.Nat.{ℕ}
use Prim.Native.String.{String}
use mathlib.Core.Path.{◌≡◌, refl, ap}
use mathlib.Core.Logic.{◌↔◌, inl, inr}
use mathlib.Core.Bool.{Bool, true, false}
use mathlib.Core.Option.{Option, none, some, some-injective}
use native.Mathlib.Omega.{arith}
use text.Mathlib.TextEquality.{eq_iff}
use text.Mathlib.Text.{◌==◌ as same_text}
use statora.Prelude.Tests.{nat_eq, Bool-cases}

pub record KeyEquality {ℓ} (A : Type ℓ) : Type ℓ where
  pub same : A → A → Bool
  pub same_iff : (x y : A) → (same x y ≡ true) ↔ (x ≡ y)

infix 50 ◌==◌
module _ {ℓ} {A : Type ℓ} ⦃e : KeyEquality A⦄ where
  -- `x === y`
  abbrev pub ◌==◌ : A → A → Bool
  ◌==◌ x y = e.same x y

pub nat_eq_iff : (a b : ℕ) → (nat_eq a b ≡ true) ↔ (a ≡ b)
nat_eq_iff a b = ground arith

instance abbrev pub ℕ_eq : KeyEquality ℕ
ℕ_eq = record { same = nat_eq; same_iff = nat_eq_iff }

instance abbrev pub String_eq : KeyEquality String
String_eq = record { same = same_text; same_iff = eq_iff }

module _ {ℓ} {A : Type ℓ} ⦃e : KeyEquality A⦄ where
  -- NaN is one key of a `Map`, as `none` is
  abbrev pub option_beq : Option A → Option A → Bool
  option_beq none none = true
  option_beq none (some b) = false
  option_beq (some a) none = false
  option_beq (some a) (some b) = e.same a b

  pub option_beq_iff : (a b : Option A) → (option_beq a b ≡ true) ↔ (a ≡ b)
  option_beq_iff none none = (λ h. refl, λ h. refl)
  option_beq_iff none (some b) = (λ h. cc, λ h. cc)
  option_beq_iff (some a) none = (λ h. cc, λ h. cc)
  option_beq_iff (some a) (some b) =
      (λ h. ap some ((e.same_iff a b).0 h), λ h. (e.same_iff a b).1 (some-injective a b h))

  instance abbrev pub Option_eq : KeyEquality (Option A)
  Option_eq = record { same = option_beq; same_iff = option_beq_iff }

  pub ==-refl : (a : A) → (a == a) ≡ true
  ==-refl a = (e.same_iff a a).1 refl

  pub ==-comm : (x y : A) → (x == y) ≡ (y == x)
  ==-comm x y = elim (Bool-cases (x == y)) [
    | inl h ↦ rw ((e.same_iff x y).0 h)
    | inr h ↦ elim (Bool-cases (y == x)) [ inl k ↦ rw ((e.same_iff y x).0 k) | inr k ↦ rw (h, k) ]
  ]

-- the test on a type whose values are told apart by a number
abbrev pub embedded {ℓ} : {A : Type ℓ} (f : A → ℕ) → ((x y : A) → f x ≡ f y → x ≡ y) → KeyEquality A
embedded f injective = record {
  same = λ x y. nat_eq (f x) (f y);
  same_iff = λ x y.
      (λ h. injective x y ((nat_eq_iff (f x) (f y)).0 h), λ h. (nat_eq_iff (f x) (f y)).1 (ap f h));
}
