-- ===== src/Prelude/Buckets.antt =====
-- A JavaScript `Map` from keys to arrays, as the grouping functions fill it: entries stay in the
-- order of their first insertion.
use mathlib.Core.Path.{◌≡◌, refl, sym}
use mathlib.Core.Bool.{Bool, true, false}
use mathlib.Core.Logic.{◌≢◌, inl, inr}
use mathlib.Core.List.{
  List, [], ◌∷◌, ◌++◌, Perm, perm_middle, append-nil, append_assoc, cons-ne-nil, concat-ne-nil,
}
use mathlib.Core.List.Perm
use native.Mathlib.Omega.{arith}
use statora.Prelude.Tests.{if◌then◌else◌, Bool-cases}
use statora.Prelude.Lists.{filter, All, All-append}
use statora.Prelude.Equality.{KeyEquality, ◌==◌}

module _ {ℓ κ} {K : Type ℓ} {A : Type κ} where
  -- the arrays of a map, one after another
  abbrev pub values : List (K × List A) → List A
  values [] = []
  values ((k, xs) ∷ m) = xs ++ values m

module _ {ℓ κ} {K : Type ℓ} {A : Type κ} ⦃e : KeyEquality K⦄ where
  -- `const current = m.get(k) ?? []; current.push(a); m.set(k, current)`
  unfoldable pub push : K → A → List (K × List A) → List (K × List A)
  push k a [] = (k, a ∷ []) ∷ []
  push k a ((j, xs) ∷ m) =
      let rest = push k a m in if j == k then (j, xs ++ a ∷ []) ∷ m else (j, xs) ∷ rest

  -- `m.get(k) ?? []`
  unfoldable pub get_or_empty : K → List (K × List A) → List A
  get_or_empty k [] = []
  get_or_empty k ((j, xs) ∷ m) = if j == k then xs else get_or_empty k m

  -- `m.has(k)`
  abbrev pub has : K → List (K × List A) → Bool
  has k [] = false
  has k ((j, xs) ∷ m) = if j == k then true else has k m

  -- `incidents.forEach(…)`: every element is pushed under its key
  unfoldable pub bucket_from : (A → K) → List (K × List A) → List A → List (K × List A)
  unfolding push
  bucket_from key m [] = m
  bucket_from key m (x ∷ xs) = bucket_from key (push (key x) x m) xs

  unfoldable pub bucket : (A → K) → List A → List (K × List A)
  unfolding bucket_from
  bucket key xs = bucket_from key [] xs

  get_or_empty-push :
      (j k : K) (a : A) (m : List (K × List A))
      → get_or_empty j (push k a m)
        ≡ (if k == j then get_or_empty j m ++ a ∷ [] else get_or_empty j m)
  unfolding get_or_empty push
  get_or_empty-push j k a [] = refl
  get_or_empty-push j k a ((i, xs) ∷ m) =
      ground (arith, e.same_iff k j, e.same_iff i j, e.same_iff i k, get_or_empty-push j k a m)

  get_or_empty-bucket_from :
      (key : A → K) (j : K) (m : List (K × List A)) (xs : List A)
      → get_or_empty j (bucket_from key m xs) ≡ get_or_empty j m ++ filter (λ x. key x == j) xs
  unfolding bucket_from
  get_or_empty-bucket_from key j m [] = sym (append-nil (get_or_empty j m))
  get_or_empty-bucket_from key j m (x ∷ xs) = elim (Bool-cases (key x == j)) [
    | inl same ↦
        rw (get_or_empty-bucket_from key j (push (key x) x m) xs, get_or_empty-push j (key x) x m)
          (rw same (append_assoc (get_or_empty j m) (x ∷ []) (filter (λ y. key y == j) xs)))
    | inr other ↦
        rw (get_or_empty-bucket_from key j (push (key x) x m) xs, get_or_empty-push j (key x) x m)
          (rw other)
  ]

  -- What the map holds under a key is the elements with that key, in their order.
  pub get_or_empty-bucket :
      (key : A → K) (j : K) (xs : List A)
      → get_or_empty j (bucket key xs) ≡ filter (λ x. key x == j) xs
  unfolding bucket get_or_empty
  get_or_empty-bucket key j xs = get_or_empty-bucket_from key j [] xs

  values-push : (k : K) (a : A) (m : List (K × List A)) → Perm (values (push k a m)) (a ∷ values m)
  unfolding push
  values-push k a [] = Perm.refl (a ∷ [])
  values-push k a ((j, xs) ∷ m) = elim (Bool-cases (j == k)) [
    | inl same ↦ rw same (rw append_assoc (perm_middle xs (values m)))
    | inr other ↦
        rw other (Perm.trans (Perm.append_left xs (values-push k a m)) (perm_middle xs (values m)))
  ]

  values-bucket_from :
      (key : A → K) (m : List (K × List A)) (xs : List A)
      → Perm (values (bucket_from key m xs)) (values m ++ xs)
  unfolding bucket_from
  values-bucket_from key m [] = rw append-nil (Perm.refl (values m))
  values-bucket_from key m (x ∷ xs) = Perm.trans (values-bucket_from key (push (key x) x m) xs) (
      Perm.trans (Perm.append_right xs (values-push (key x) x m))
        (Perm.symm (perm_middle (values m) xs)))

  -- No element is lost and none is there twice.
  pub values-bucket : (key : A → K) (xs : List A) → Perm (values (bucket key xs)) xs
  unfolding bucket
  values-bucket key xs = values-bucket_from key [] xs

  -- an entry is not empty and holds elements of its key only
  abbrev pub IsKeyed : (A → K) → K × List A → Type (ℓ ⊔ κ)
  IsKeyed key (k, xs) = (xs ≢ []) × All (λ x. key x ≡ k) xs

  -- no key stands twice
  abbrev pub HasDistinctKeys : List (K × List A) → Type 0
  HasDistinctKeys [] = Unit
  HasDistinctKeys ((k, xs) ∷ m) = (has k m ≡ false) × HasDistinctKeys m

  push-IsKeyed :
      (key : A → K) (a : A) (m : List (K × List A))
      → All (IsKeyed key) m
      → All (IsKeyed key) (push (key a) a m)
  unfolding push
  push-IsKeyed key a [] h = ((cons-ne-nil a [], (refl, tt)), tt)
  push-IsKeyed key a ((j, xs) ∷ m) ((n, k), h) = elim (Bool-cases (j == key a)) [
    | inl same ↦ rw same (
      (
        concat-ne-nil a xs,
        All-append (λ x. key x ≡ j) xs (a ∷ []) k (sym ((e.same_iff j (key a)).0 same), tt),
      ),
      h,
    )
    | inr other ↦ rw other ((n, k), push-IsKeyed key a m h)
  ]

  bucket_from-IsKeyed :
      (key : A → K) (m : List (K × List A)) (xs : List A)
      → All (IsKeyed key) m
      → All (IsKeyed key) (bucket_from key m xs)
  unfolding bucket_from
  bucket_from-IsKeyed key m [] h = h
  bucket_from-IsKeyed key m (x ∷ xs) h =
      bucket_from-IsKeyed key (push (key x) x m) xs (push-IsKeyed key x m h)

  pub bucket-IsKeyed : (key : A → K) (xs : List A) → All (IsKeyed key) (bucket key xs)
  unfolding bucket
  bucket-IsKeyed key xs = bucket_from-IsKeyed key [] xs tt

  has-push :
      (j k : K) (a : A) (m : List (K × List A))
      → has j (push k a m) ≡ (if k == j then true else has j m)
  unfolding push
  has-push j k a [] = refl
  has-push j k a ((i, xs) ∷ m) =
      ground (arith, e.same_iff k j, e.same_iff i j, e.same_iff i k, has-push j k a m)

  push-HasDistinctKeys :
      (k : K) (a : A) (m : List (K × List A)) → HasDistinctKeys m → HasDistinctKeys (push k a m)
  unfolding push
  push-HasDistinctKeys k a [] h = (refl, tt)
  push-HasDistinctKeys k a ((j, xs) ∷ m) (new, h) = elim (Bool-cases (j == k)) [
    | inl same ↦ rw same (new, h)
    | inr other ↦ rw other (
      ground (arith, has-push j k a m, e.same_iff k j, e.same_iff j k),
      push-HasDistinctKeys k a m h,
    )
  ]

  bucket_from-HasDistinctKeys :
      (key : A → K) (m : List (K × List A)) (xs : List A)
      → HasDistinctKeys m
      → HasDistinctKeys (bucket_from key m xs)
  unfolding bucket_from
  bucket_from-HasDistinctKeys key m [] h = h
  bucket_from-HasDistinctKeys key m (x ∷ xs) h =
      bucket_from-HasDistinctKeys key (push (key x) x m) xs (push-HasDistinctKeys (key x) x m h)

  pub bucket-HasDistinctKeys : (key : A → K) (xs : List A) → HasDistinctKeys (bucket key xs)
  unfolding bucket
  bucket-HasDistinctKeys key xs = bucket_from-HasDistinctKeys key [] xs tt

  module _ {μ} (P : A → Type μ) where
    push-All :
        (k : K) (a : A) (m : List (K × List A))
        → P a
        → All (λ entry. All P entry.1) m
        → All (λ entry. All P entry.1) (push k a m)
    unfolding push
    push-All k a [] p h = ((p, tt), tt)
    push-All k a ((j, xs) ∷ m) p (q, h) = elim (Bool-cases (j == k)) [
      | inl same ↦ rw same (All-append P xs (a ∷ []) q (p, tt), h)
      | inr other ↦ rw other (q, push-All k a m p h)
    ]

    bucket_from-All :
        (key : A → K) (m : List (K × List A)) (xs : List A)
        → All (λ entry. All P entry.1) m
        → All P xs
        → All (λ entry. All P entry.1) (bucket_from key m xs)
    unfolding bucket_from
    bucket_from-All key m [] h k = h
    bucket_from-All key m (x ∷ xs) h (p, k) =
        bucket_from-All key (push (key x) x m) xs (push-All (key x) x m p h) k

    -- what holds of all the elements holds of those in each array
    pub bucket-All :
        (key : A → K) (xs : List A) → All P xs → All (λ entry. All P entry.1) (bucket key xs)
    unfolding bucket
    bucket-All key xs h = bucket_from-All key [] xs tt h
