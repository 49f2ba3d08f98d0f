-- ===== src/Prelude/Perms.antt =====
-- Rearrangements of lists: under the Boolean filter, under sorting, and of arrays joined together.
use mathlib.Core.Path.{◌≡◌, refl, sym, ap, ◌∙◌}
use mathlib.Core.Logic.{inl, inr, ∥∥₁_elim}
use mathlib.Core.Bool.{Bool, true, false, ◌||◌, ◌&&◌}
use mathlib.Core.List.{
  List, [], ◌∷◌, ◌++◌, map, Perm, Permᴰ, Perm-prop, perm_middle, append_assoc, perm_append_comm,
}
use mathlib.Core.List.Perm
use native.Mathlib.Omega.{arith}
use statora.Prelude.Tests.{Bool-cases}
use statora.Prelude.Lists.{filter, All-filter}
use statora.Prelude.Sort.{insert, sort, IsSorted}
use statora.Prelude.Equality.{KeyEquality, ◌==◌, ==-refl}
use statora.Prelude.Buckets.{values, has, get_or_empty, HasDistinctKeys}

-- the arrays that a function gives for the elements of a list, joined
module _ {ℓ κ} {A : Type ℓ} {B : Type κ} where
  abbrev pub join : (A → List B) → List A → List B
  join f [] = []
  join f (x ∷ xs) = f x ++ join f xs

  pub join-append : (f : A → List B) (xs ys : List A) → join f (xs ++ ys) ≡ join f xs ++ join f ys
  join-append f [] ys = refl
  join-append f (x ∷ xs) ys = rw (join-append f xs ys) (sym (append_assoc (f x) _ _))

  pub join-perm :
      (f g : A → List B) (xs : List A) → ((x : A) → Perm (f x) (g x)) → Perm (join f xs) (join g xs)
  join-perm f g [] h = Perm.refl []
  join-perm f g (x ∷ xs) h = Perm.append (h x) (join-perm f g xs h)

  join-insert :
      (before : A → A → Bool) (f : A → List B) (x : A) (xs : List A)
      → Perm (join f (insert before x xs)) (f x ++ join f xs)
  unfolding insert
  join-insert before f x [] = Perm.refl _
  join-insert before f x (y ∷ ys) = elim (Bool-cases (before x y)) [
    | inl here ↦ rw here (Perm.refl _)
    | inr later ↦ rw later (
        Perm.trans (Perm.append_left (f y) (join-insert before f x ys)) (
          rw (← append_assoc (f y) (f x) (join f ys), ← append_assoc (f x) (f y) (join f ys))
            (Perm.append_right (join f ys) (perm_append_comm (f y) (f x)))))
  ]

  -- sorting the entries only rearranges what they hold
  pub join-sort :
      (before : A → A → Bool) (f : A → List B) (xs : List A)
      → Perm (join f (sort before xs)) (join f xs)
  unfolding sort
  join-sort before f [] = Perm.refl []
  join-sort before f (x ∷ xs) =
      Perm.trans (join-insert before f x (sort before xs))
        (Perm.append_left (f x) (join-sort before f xs))

module _ {ℓ} {A : Type ℓ} where
  pub filter-append :
      (p : A → Bool) (xs ys : List A) → filter p (xs ++ ys) ≡ filter p xs ++ filter p ys
  filter-append p [] ys = refl
  filter-append p (x ∷ xs) ys = ground (arith, filter-append p xs ys)

  filter-swap :
      (p : A → Bool) (x y : A) (l : List A) → Perm (filter p (x ∷ y ∷ l)) (filter p (y ∷ x ∷ l))
  filter-swap p x y l = elim (Bool-cases (p x)) [
    | inl kept ↦ elim (Bool-cases (p y)) [
      | inl both ↦ rw (kept, both) (Perm.swap y x (filter p l))
      | inr one ↦ rw (kept, one) (Perm.refl (x ∷ filter p l))
    ]
    | inr dropped ↦ rw dropped (Perm.refl _)
  ]

  filter-permᴰ : (p : A → Bool) {xs ys : List A} → Permᴰ xs ys → Perm (filter p xs) (filter p ys)
  filter-permᴰ p Permᴰ.nil = Perm.refl []
  filter-permᴰ p (Permᴰ.cons {a} {b} {l₁} {l₂} e h) = elim (Bool-cases (p b)) [
    | inl kept ↦ rw (e, kept) (Perm.cons b (filter-permᴰ p h))
    | inr dropped ↦ rw (e, dropped) (filter-permᴰ p h)
  ]
  filter-permᴰ p (Permᴰ.swap {a' = b'} {b' = a'} {l} e f) = rw (e, f) (filter-swap p a' b' l)
  filter-permᴰ p (Permᴰ.trans h k) = Perm.trans (filter-permᴰ p h) (filter-permᴰ p k)

  pub filter-perm : (p : A → Bool) {xs ys : List A} → Perm xs ys → Perm (filter p xs) (filter p ys)
  filter-perm p h = ∥∥₁_elim h Perm-prop (filter-permᴰ p)

  -- Two tests that exclude one another split what either of them keeps.
  pub filter-or-perm :
      (p q r : A → Bool) (xs : List A)
      → ((x : A) → r x ≡ (p x || q x))
      → ((x : A) → (p x && q x) ≡ false)
      → Perm (filter p xs ++ filter q xs) (filter r xs)
  filter-or-perm p q r [] h k = Perm.refl []
  filter-or-perm p q r (x ∷ xs) h k = elim (Bool-cases (p x)) [
    | inl left ↦
        let none_right : q x ≡ false = ground (arith, k x) in
        let kept : r x ≡ true = ground (arith, h x) in
        rw (left, none_right, kept) (Perm.cons x (filter-or-perm p q r xs h k))
    | inr not_left ↦ elim (Bool-cases (q x)) [
      | inl right ↦
          let kept : r x ≡ true = ground (arith, h x) in
          rw (not_left, right, kept)
            (Perm.trans (perm_middle (filter p xs) (filter q xs))
              (Perm.cons x (filter-or-perm p q r xs h k)))
      | inr not_right ↦
          let dropped : r x ≡ false = ground (arith, h x) in
          rw (not_left, not_right, dropped) (filter-or-perm p q r xs h k)
    ]
  ]

  -- a filter keeps the order
  pub filter-IsSorted :
      (before : A → A → Bool) (p : A → Bool) (xs : List A)
      → IsSorted before xs
      → IsSorted before (filter p xs)
  filter-IsSorted before p [] h = tt
  filter-IsSorted before p (x ∷ xs) (first, h) = elim (Bool-cases (p x)) [
    | inl kept ↦
        rw kept (All-filter (λ y. before x y ≡ true) p xs first, filter-IsSorted before p xs h)
    | inr dropped ↦ rw dropped (filter-IsSorted before p xs h)
  ]

module _ {ℓ κ μ} {A : Type ℓ} {B : Type κ} {C : Type μ} where
  pub join-map :
      (f : B → List C) (g : A → B) (xs : List A) → join f (map g xs) ≡ join (λ x. f (g x)) xs
  join-map f g [] = refl
  join-map f g (x ∷ xs) = rw (join-map f g xs)

module _ {ℓ κ} {A : Type ℓ} {B : Type κ} where
  pub filter-join :
      (p : B → Bool) (f : A → List B) (xs : List A)
      → filter p (join f xs) ≡ join (λ x. filter p (f x)) xs
  filter-join p f [] = refl
  filter-join p f (x ∷ xs) =
      filter-append p (f x) (join f xs) ∙ ap (λ t. filter p (f x) ++ t) (filter-join p f xs)

-- Reading a map key by key gives all that it holds.
module _ {ℓ κ} {K : Type ℓ} {A : Type κ} ⦃e : KeyEquality K⦄ where
  pub join-values : (m : List (K × List A)) → join (λ entry. entry.1) m ≡ values m
  join-values [] = refl
  join-values ((k, xs) ∷ m) = ap (λ t. xs ++ t) (join-values m)

  get_skip :
      (k : K) (xs : List A) (m ms : List (K × List A))
      → has k ms ≡ false
      → join (λ j. get_or_empty j ((k, xs) ∷ m)) (map (λ entry. entry.0) ms)
        ≡ join (λ j. get_or_empty j m) (map (λ entry. entry.0) ms)
  unfolding get_or_empty
  get_skip k xs m [] h = refl
  get_skip k xs m ((j, ys) ∷ ms) h =
      let other : (k == j) ≡ false = ground (arith, e.same_iff k j, e.same_iff j k) in
      rw other (ap (λ t. get_or_empty j m ++ t) (get_skip k xs m ms (ground arith)))

  pub join-get_or_empty :
      (m : List (K × List A))
      → HasDistinctKeys m
      → join (λ k. get_or_empty k m) (map (λ entry. entry.0) m) ≡ values m
  unfolding get_or_empty
  join-get_or_empty [] h = refl
  join-get_or_empty ((k, xs) ∷ m) (new, h) =
      rw (==-refl k) (ap (λ t. xs ++ t) (get_skip k xs m m new ∙ join-get_or_empty m h))
