-- ===== src/Prelude/Sort.antt =====
-- `Array.prototype.sort` is stable: a stable insertion sort over the test "the comparator is not
-- positive". Where a comparator is inconsistent (it is handed NaN) the language leaves the order
-- open, and no theorem speaks of it.
use mathlib.Core.Path.{◌≡◌, subst}
use mathlib.Core.Bool.{Bool, true, false}
use mathlib.Core.Logic.{◌≢◌, inl, inr}
use mathlib.Core.List.{List, [], ◌∷◌, map, Perm}
use mathlib.Core.List.Perm
use statora.Prelude.Tests.{if◌then◌else◌, Bool-cases}
use statora.Prelude.Lists.{All, map-All}

module _ {ℓ} {A : Type ℓ} (before : A → A → Bool) where
  unfoldable pub insert : A → List A → List A
  insert x [] = x ∷ []
  insert x (y ∷ ys) = let rest = insert x ys in if before x y then x ∷ y ∷ ys else y ∷ rest

  unfoldable pub sort : List A → List A
  unfolding insert
  sort [] = []
  sort (x ∷ xs) = insert x (sort xs)

  -- every element stands before all that follow it
  abbrev pub IsSorted : List A → Type ℓ
  IsSorted [] = Unit
  IsSorted (x ∷ xs) = All (λ y. before x y ≡ true) xs × IsSorted xs

module _ {ℓ} {A : Type ℓ} (before : A → A → Bool) where
  insert-perm : (x : A) (xs : List A) → Perm (insert before x xs) (x ∷ xs)
  unfolding insert
  insert-perm x [] = Perm.refl (x ∷ [])
  insert-perm x (y ∷ ys) = elim (Bool-cases (before x y)) [
    | inl here ↦ rw here (Perm.refl (x ∷ y ∷ ys))
    | inr later ↦ rw later (Perm.trans (Perm.cons y (insert-perm x ys)) (Perm.swap x y ys))
  ]

  pub sort-perm : (xs : List A) → Perm (sort before xs) xs
  unfolding sort
  sort-perm [] = Perm.refl []
  sort-perm (x ∷ xs) = Perm.trans (insert-perm x (sort before xs)) (Perm.cons x (sort-perm xs))

  module _ {κ} (P : A → Type κ) where
    insert-All : (x : A) (xs : List A) → P x → All P xs → All P (insert before x xs)
    unfolding insert
    insert-All x [] p h = (p, tt)
    insert-All x (y ∷ ys) p (q, h) = elim (Bool-cases (before x y)) [
      | inl here ↦ rw here (p, (q, h))
      | inr later ↦ rw later (q, insert-All x ys p h)
    ]

    pub sort-All : (xs : List A) → All P xs → All P (sort before xs)
    unfolding sort
    sort-All [] h = tt
    sort-All (x ∷ xs) (p, h) = insert-All x (sort before xs) p (sort-All xs h)

-- The order is consistent on the elements that satisfy `P`.
pub record IsOrder {ℓ κ} {A : Type ℓ} (P : A → Type κ) (before : A → A → Bool) : Type (ℓ ⊔ κ) where
  pub total : (x y : A) → P x → P y → before x y ≡ false → before y x ≡ true
  pub trans :
      (x y z : A) → P x → P y → P z → before x y ≡ true → before y z ≡ true → before x z ≡ true

module _ {ℓ κ} {A : Type ℓ} {P : A → Type κ} {before : A → A → Bool} (o : IsOrder P before) where
  All-below :
      (x y : A) (ys : List A)
      → P x
      → P y
      → All P ys
      → before x y ≡ true
      → All (λ z. before y z ≡ true) ys
      → All (λ z. before x z ≡ true) ys
  All-below x y [] p q h e k = tt
  All-below x y (z ∷ zs) p q (r, h) e (f, k) = (o.trans x y z p q r e f, All-below x y zs p q h e k)

  insert-IsSorted :
      (x : A) (xs : List A)
      → P x
      → All P xs
      → IsSorted before xs
      → IsSorted before (insert before x xs)
  unfolding insert
  insert-IsSorted x [] p h s = (tt, tt)
  insert-IsSorted x (y ∷ ys) p (q, h) (k, s) = elim (Bool-cases (before x y)) [
    | inl here ↦ rw here ((here, All-below x y ys p q h here k), (k, s))
    | inr later ↦ rw later (
      insert-All before (λ z. before y z ≡ true) x ys (o.total x y p q later) k,
      insert-IsSorted x ys p h s,
    )
  ]

  pub sort-IsSorted : (xs : List A) → All P xs → IsSorted before (sort before xs)
  unfolding sort
  sort-IsSorted [] h = tt
  sort-IsSorted (x ∷ xs) (p, h) =
      insert-IsSorted x (sort before xs) p (sort-All before P xs h) (sort-IsSorted xs h)

-- what a sort returns is empty only if it was handed nothing
pub sort-ne-nil {ℓ} :
    {A : Type ℓ} (before : A → A → Bool) (xs : List A) → xs ≢ [] → sort before xs ≢ []
sort-ne-nil before xs h e =
    h (Perm.eq-nil (subst (λ t. Perm xs t) e (Perm.symm (sort-perm before xs))))

pub map-IsSorted {ℓ κ} :
    {A : Type ℓ} {B : Type κ} (before : B → B → Bool) (f : A → B) (xs : List A)
    → IsSorted (λ x y. before (f x) (f y)) xs
    → IsSorted before (map f xs)
map-IsSorted before f [] h = tt
map-IsSorted before f (x ∷ xs) (first, h) =
    (map-All (λ y. before (f x) y ≡ true) f xs first, map-IsSorted before f xs h)
