-- ===== src/Pagination/Buttons.antt =====
-- Lemmas on buildPageButtons of apps/web/src/components/AdminPaginationControls.tsx.
use Prim.Native.Nat.{ℕ, ◌+◌, ◌-◌, ◌≤◌, ◌<◌}
use mathlib.Core.Path.{◌≡◌, refl, ◌∙◌, subst}
use mathlib.Core.Logic.{inl, inr}
use mathlib.Core.Bool.{true, false, ◌&&◌, ◌||◌}
use mathlib.Core.List.{List, [], ◌∷◌, ◌++◌}
use native.Mathlib.Omega.{arith}
use statora.Prelude.Tests.{leb, nat_eq, Bool-cases}
use statora.Prelude.Lists.{All}
use statora.Prelude.Sort.{insert, sort}
use statora.Pagination.{contains, add, add_in_range, build_page_buttons}

contains-append :
    (k : ℕ) (xs ys : List ℕ) → contains k (xs ++ ys) ≡ (contains k xs || contains k ys)
contains-append k [] ys = refl
contains-append k (x ∷ xs) ys = ground (arith, contains-append k xs ys)

contains_same :
    (k j : ℕ) (xs : List ℕ) → nat_eq j k ≡ true → contains j xs ≡ true → contains k xs ≡ true
contains_same k j xs same h = let e : j ≡ k = ground arith in subst (λ t. contains t xs ≡ true) e h

contains-add : (k j : ℕ) (xs : List ℕ) → contains k (add j xs) ≡ (nat_eq j k || contains k xs)
unfolding add
contains-add k j xs = elim (Bool-cases (contains j xs)) [
  | inl old ↦ elim (Bool-cases (nat_eq j k)) [
    | inl same ↦ rw (old, same) (contains_same k j xs same old)
    | inr other ↦ rw (old, other)
  ]
  | inr new ↦ rw (new, contains-append k xs (j ∷ [])) (ground arith)
]

contains-insert :
    (k x : ℕ) (xs : List ℕ) → contains k (insert leb x xs) ≡ (nat_eq x k || contains k xs)
unfolding insert
contains-insert k x [] = refl
contains-insert k x (y ∷ ys) = ground (arith, contains-insert k x ys)

contains-sort : (k : ℕ) (xs : List ℕ) → contains k (sort leb xs) ≡ contains k xs
unfolding sort
contains-sort k [] = refl
contains-sort k (x ∷ xs) = contains-insert k x (sort leb xs) ∙ ground (arith, contains-sort k xs)

-- no page stands twice
abbrev IsDistinct : List ℕ → Type 0
IsDistinct [] = Unit
IsDistinct (x ∷ xs) = (contains x xs ≡ false) × IsDistinct xs

-- each page is smaller than all that follow it
abbrev pub IsAscending : List ℕ → Type 0
IsAscending [] = Unit
IsAscending (x ∷ xs) = All (λ y. x < y) xs × IsAscending xs

snoc-IsDistinct :
    (j : ℕ) (xs : List ℕ) → contains j xs ≡ false → IsDistinct xs → IsDistinct (xs ++ j ∷ [])
snoc-IsDistinct j [] n h = (refl, tt)
snoc-IsDistinct j (x ∷ xs) n (m, h) =
    (contains-append x xs (j ∷ []) ∙ ground arith, snoc-IsDistinct j xs (ground arith) h)

add-IsDistinct : (j : ℕ) (xs : List ℕ) → IsDistinct xs → IsDistinct (add j xs)
unfolding add
add-IsDistinct j xs h = elim (Bool-cases (contains j xs)) [
  | inl old ↦ rw old h
  | inr new ↦ rw new (snoc-IsDistinct j xs new h)
]

add_in_range-IsDistinct :
    (total j : ℕ) (xs : List ℕ) → IsDistinct xs → IsDistinct (add_in_range total j xs)
unfolding add_in_range
add_in_range-IsDistinct total j xs h = elim (Bool-cases (leb 1 j && leb j total)) [
  | inl inside ↦ rw inside (add-IsDistinct j xs h)
  | inr outside ↦ rw outside h
]

All-lt_trans : (x y : ℕ) (ys : List ℕ) → x < y → All (λ z. y < z) ys → All (λ z. x < z) ys
All-lt_trans x y [] h k = tt
All-lt_trans x y (z ∷ zs) h (p, k) = (omega arith, All-lt_trans x y zs h k)

insert-All_lt :
    (w x : ℕ) (ys : List ℕ) → w < x → All (λ z. w < z) ys → All (λ z. w < z) (insert leb x ys)
unfolding insert
insert-All_lt w x [] h k = (h, tt)
insert-All_lt w x (y ∷ ys) h (p, k) = elim (Bool-cases (leb x y)) [
  | inl here ↦ rw here (h, (p, k))
  | inr later ↦ rw later (p, insert-All_lt w x ys h k)
]

insert-IsAscending :
    (x : ℕ) (ys : List ℕ) → contains x ys ≡ false → IsAscending ys → IsAscending (insert leb x ys)
unfolding insert
insert-IsAscending x [] n h = (tt, tt)
insert-IsAscending x (y ∷ ys) n (k, h) = elim (Bool-cases (leb x y)) [
  | inl here ↦ let lt : x < y = ground arith in rw here ((lt, All-lt_trans x y ys lt k), (k, h))
  | inr later ↦
      rw later (insert-All_lt y x ys (ground arith) k, insert-IsAscending x ys (ground arith) h)
]

sort-IsAscending : (xs : List ℕ) → IsDistinct xs → IsAscending (sort leb xs)
unfolding sort
sort-IsAscending [] h = tt
sort-IsAscending (x ∷ xs) (n, h) =
    insert-IsAscending x (sort leb xs) (contains-sort x xs ∙ n) (sort-IsAscending xs h)

-- The buttons stand in ascending order, no page twice.
pub build_page_buttons-IsAscending :
    (page total_pages : ℕ) → IsAscending (build_page_buttons page total_pages)
unfolding build_page_buttons
build_page_buttons-IsAscending page total_pages = sort-IsAscending _ (
    add_in_range-IsDistinct total_pages (page + 1) _ (
      add_in_range-IsDistinct total_pages page _ (
        add_in_range-IsDistinct total_pages (page - 1) _
          (add-IsDistinct total_pages (add 1 []) (add-IsDistinct 1 [] tt)))))

contains-add_in_range :
    (k total j : ℕ) (xs : List ℕ)
    → contains k (add_in_range total j xs)
      ≡ ((leb 1 j && leb j total && nat_eq j k) || contains k xs)
unfolding add_in_range
contains-add_in_range k total j xs = ground (arith, contains-add k j xs)

-- For a page from 1 on, a number has a button exactly if it is 1, the number of pages, or in range
-- and at most one away from the page.
pub contains-build_page_buttons :
    (k page total_pages : ℕ)
    → 1 ≤ page
    → contains k (build_page_buttons page total_pages) ≡ (
        nat_eq k 1
        || nat_eq k total_pages
        || (leb 1 k && leb k total_pages && leb page (k + 1) && leb k (page + 1)))
unfolding build_page_buttons
contains-build_page_buttons k page total_pages h =
    let ends = add total_pages (add 1 []) in
    let before = add_in_range total_pages (page - 1) ends in
    let here = add_in_range total_pages page before in
    contains-sort k (add_in_range total_pages (page + 1) here)
    ∙ contains-add_in_range k total_pages (page + 1) here
    ∙ ground (
      arith,
      contains-add_in_range k total_pages page before,
      contains-add_in_range k total_pages (page - 1) ends,
      contains-add k total_pages (add 1 []),
      contains-add k 1 [],
    )
