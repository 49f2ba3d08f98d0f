-- ===== src/Admin/Selection.antt =====
-- A list of ids as a set of ticked boxes: `includes`, and the toggling that AdminMaintenance.tsx and
-- AdminIncidents.tsx write out.
use mathlib.Core.Path.{◌≡◌, refl, sym}
use mathlib.Core.Logic.{inl, inr}
use mathlib.Core.Bool.{Bool, true, false, not, ◌&&◌, ◌||◌}
use mathlib.Core.List.{List, [], ◌∷◌, ◌++◌}
use native.Mathlib.Omega.{arith}
use statora.Prelude.Tests.{if◌then◌else◌, Bool-cases}
use statora.Prelude.Lists.{filter, any}
use statora.Prelude.Equality.{KeyEquality, ◌==◌}

module _ {ℓ} {A : Type ℓ} ⦃e : KeyEquality A⦄ where
  -- `xs.includes(x)`
  abbrev pub includes : A → List A → Bool
  includes x xs = any (λ y. y == x) xs

  -- `xs.includes(x) ? xs.filter((y) => y !== x) : [...xs, x]`
  unfoldable pub toggled : A → List A → List A
  toggled x xs = if includes x xs then filter (λ y. not (y == x)) xs else xs ++ x ∷ []

  -- no id stands twice
  abbrev pub is_distinct : List A → Bool
  is_distinct [] = true
  is_distinct (x ∷ xs) = not (includes x xs) && is_distinct xs

  includes-append :
      (x y : A) (xs : List A) → includes y (xs ++ x ∷ []) ≡ (includes y xs || (x == y))
  includes-append x y [] = ground arith
  includes-append x y (z ∷ xs) = ground (arith, includes-append x y xs)

  includes-filter_ne :
      (x y : A) (xs : List A)
      → includes y (filter (λ z. not (z == x)) xs) ≡ (includes y xs && not (x == y))
  includes-filter_ne x y [] = refl
  includes-filter_ne x y (z ∷ xs) = elim (Bool-cases (z == x)) [
    | inl here ↦
        let p = (e.same_iff z x).0 here in
        rw here (rw p (ground (arith, includes-filter_ne x y xs)))
    | inr other ↦ elim (Bool-cases (x == y)) [
      | inl h ↦
          let p = (e.same_iff x y).0 h in
          let q : (z == y) ≡ false = cc in rw other (ground (arith, includes-filter_ne x y xs))
      | inr h ↦ rw other (ground (arith, includes-filter_ne x y xs))
    ]
  ]

  -- Toggling an id changes whether it is ticked, and no other.
  pub includes-toggled :
      (x y : A) (xs : List A)
      → includes y (toggled x xs) ≡ (if x == y then not (includes y xs) else includes y xs)
  unfolding toggled
  includes-toggled x y xs =
      let here : (x == y) ≡ true → includes y xs ≡ includes x xs =
        λ h. let p = (e.same_iff x y).0 h in cc in
      elim (Bool-cases (includes x xs)) [
        | inl ticked ↦ rw ticked (rw (includes-filter_ne x y xs) (ground arith))
        | inr free ↦ rw free (rw (includes-append x y xs) (ground arith))
      ]

  filter_ne-is_distinct :
      (x : A) (xs : List A)
      → is_distinct xs ≡ true
      → is_distinct (filter (λ z. not (z == x)) xs) ≡ true
  filter_ne-is_distinct x [] h = refl
  filter_ne-is_distinct x (z ∷ xs) h =
      ground (arith, includes-filter_ne x z xs, filter_ne-is_distinct x xs)

  pub append-is_distinct :
      (x : A) (xs : List A)
      → includes x xs ≡ false
      → is_distinct xs ≡ true
      → is_distinct (xs ++ x ∷ []) ≡ true
  append-is_distinct x [] free h = refl
  append-is_distinct x (z ∷ xs) free h = elim (Bool-cases (x == z)) [
    | inl same ↦
        let p = (e.same_iff x z).0 same in
        let q : (z == x) ≡ true = (e.same_iff z x).1 (sym p) in ground arith
    | inr other ↦ ground (arith, includes-append x z xs, append-is_distinct x xs)
  ]

  -- Toggling keeps every id at one place.
  pub toggled-is_distinct :
      (x : A) (xs : List A) → is_distinct xs ≡ true → is_distinct (toggled x xs) ≡ true
  unfolding toggled
  toggled-is_distinct x xs h = elim (Bool-cases (includes x xs)) [
    | inl ticked ↦ rw ticked (filter_ne-is_distinct x xs h)
    | inr free ↦ rw free (append-is_distinct x xs free h)
  ]
