-- ===== src/Public/History/Laws.antt =====
-- Lemmas on the quarters of apps/web/src/pages/HistoryPage.tsx.
use Prim.Native.Nat.{ℕ, ◌+◌, ◌-◌, ◌*◌, ◌/◌, ◌%◌, ◌<◌, ◌≤◌}
use Prim.Native.String.{String}
use mathlib.Core.Path.{◌≡◌, refl, sym, ap, ◌∙◌}
use mathlib.Core.Logic.{inl, inr}
use mathlib.Core.Bool.{Bool, true, false, ◌&&◌, ◌||◌}
use mathlib.Core.Option.{Option, none, some, some-injective}
use mathlib.Core.List.{List, [], ◌∷◌, ◌++◌, Perm, append_assoc, append-nil}
use mathlib.Core.List.Perm
use native.Mathlib.Omega.{arith}
use statora.Prelude.Tests.{ltb, Bool-cases, Option-cases, nat_eq, ltb→lt}
use statora.Prelude.Lists.{filter}
use statora.Prelude.Perms.{filter-or-perm}
use statora.Prelude.Sort.{sort-perm}
use statora.Types.Incident.{Incident}
use statora.Utils.Dates.{Dates, LocalDate, local_date}
use statora.Public.History.{
  QuarterCursor, MonthBucket, get_current_quarter_cursor, to_quarter_index, at_index, shift_ahead,
  shift_back, can_go_next, is_in_month, group_incidents_by_quarter_months,
}

-- the quarter of the year is one of four
abbrev pub IsCursor : QuarterCursor → Type 0
IsCursor c = c.quarter < 4

at_index-index : (n : ℕ) → to_quarter_index (at_index n) ≡ n
unfolding to_quarter_index
at_index-index n = omega arith

index-at_index : (c : QuarterCursor) → IsCursor c → at_index (to_quarter_index c) ≡ c
unfolding to_quarter_index
index-at_index c h =
    let year : (c.year * 4 + c.quarter) / 4 ≡ c.year = omega arith in
    let quarter : ((c.year * 4 + c.quarter) % 4 + 4) % 4 ≡ c.quarter = omega arith in
    rw (year, quarter)

-- Moving ahead by a number of quarters reaches the quarter that many later, and moving back again by
-- the same number returns to where it began.
pub shift_back-shift_ahead :
    (n : ℕ) (c : QuarterCursor)
    → IsCursor c
    → (to_quarter_index (shift_ahead n c) ≡ to_quarter_index c + n)
      × IsCursor (shift_ahead n c)
      × (shift_back n (shift_ahead n c) ≡ some c)
unfolding shift_ahead shift_back
shift_back-shift_ahead n c h =
    let there = at_index-index (to_quarter_index c + n) in
    let fits : ltb (to_quarter_index c + n) n ≡ false = ground arith in
    let gone : to_quarter_index c + n - n ≡ to_quarter_index c = omega arith in
    (there, omega arith, rw (there, fits, gone) (ap some (index-at_index c h)))

-- the clicks on the two arrows; the one that leads ahead is disabled at the current quarter
pub data Step (current : QuarterCursor) : QuarterCursor → QuarterCursor → Type 0 where
  earlier : (c before : QuarterCursor) → shift_back 1 c ≡ some before → Step current c before
  later : (c : QuarterCursor) → can_go_next c current ≡ true → Step current c (shift_ahead 1 c)

pub data Reachable (current : QuarterCursor) : QuarterCursor → Type 0 where
  start : Reachable current current
  follow :
      {c next : QuarterCursor} → Reachable current c → Step current c next → Reachable current next

shift_back_one :
    (c before : QuarterCursor)
    → shift_back 1 c ≡ some before
    → before ≡ at_index (to_quarter_index c - 1)
unfolding shift_back
shift_back_one c before e = elim (Bool-cases (ltb (to_quarter_index c) 1)) [
  | inl none_there ↦ let f = rw none_there at e in absurd cc
  | inr there ↦
      let found : shift_back 1 c ≡ some (at_index (to_quarter_index c - 1)) = rw there in
      sym (some-injective _ _ (sym found ∙ e))
]

step-NotAfter :
    (current : QuarterCursor) {c next : QuarterCursor}
    → Step current c next
    → IsCursor c × (to_quarter_index c ≤ to_quarter_index current)
    → IsCursor next × (to_quarter_index next ≤ to_quarter_index current)
unfolding shift_ahead can_go_next
step-NotAfter current (earlier c before e) h =
    rw (shift_back_one c before e)
      (omega arith, rw (at_index-index (to_quarter_index c - 1)) (omega (arith, h.1)))
step-NotAfter current (later c can) h = (
  omega arith,
  rw (at_index-index (to_quarter_index c + 1))
      (let lt = ltb→lt (to_quarter_index c) (to_quarter_index current) can in omega (arith, lt)),
)

-- Every quarter that the arrows reach from the current one is a quarter of a year and not after the
-- current one.
pub reachable-NotAfter :
    (today : LocalDate) {c : QuarterCursor}
    → today.month < 12
    → let current = get_current_quarter_cursor today in
      Reachable current c → IsCursor c × (to_quarter_index c ≤ to_quarter_index current)
unfolding get_current_quarter_cursor
reachable-NotAfter today valid start = (omega arith, omega arith)
reachable-NotAfter today valid (follow r s) =
    step-NotAfter (get_current_quarter_cursor today) s (reachable-NotAfter today valid r)

-- in the year and the quarter of the cursor; an invalid date is in none
abbrev pub in_quarter : QuarterCursor → Option LocalDate → Bool
in_quarter c none = false
in_quarter c (some d) = nat_eq d.year c.year && nat_eq (d.month / 3) c.quarter

quarter-months :
    (m q : ℕ)
    → nat_eq (m / 3) q ≡ ((nat_eq m (q * 3 + 2) || nat_eq m (q * 3 + 1)) || nat_eq m (q * 3 + 0))
quarter-months m q = ground arith

same-apart : (m a b : ℕ) → nat_eq a b ≡ false → (nat_eq m a && nat_eq m b) ≡ false
same-apart m a b ne = ground arith

module _ (dates : Dates) (c : QuarterCursor) where
  in_quarter-months :
      (i : Incident)
      → in_quarter c (local_date dates i.created_at) ≡ (
          (is_in_month dates c (c.quarter * 3 + 2) i || is_in_month dates c (c.quarter * 3 + 1) i)
          || is_in_month dates c (c.quarter * 3 + 0) i)
  unfolding is_in_month
  in_quarter-months i = elim (Option-cases (dates.time i.created_at)) [
    | inl e ↦ rw e
    | inr (t, e) ↦ let d = dates.local t in rw e (ground (arith, quarter-months d.month c.quarter))
  ]

  months-apart :
      (a b : ℕ) (i : Incident)
      → nat_eq a b ≡ false
      → (is_in_month dates c a i && is_in_month dates c b i) ≡ false
  unfolding is_in_month
  months-apart a b i ne = elim (Option-cases (dates.time i.created_at)) [
    | inl e ↦ rw e
    | inr (t, e) ↦ let d = dates.local t in rw e (ground (arith, same-apart d.month a b ne))
  ]

  early-apart :
      (i : Incident)
      → ((is_in_month dates c (c.quarter * 3 + 2) i || is_in_month dates c (c.quarter * 3 + 1) i)
          && is_in_month dates c (c.quarter * 3 + 0) i)
        ≡ false
  early-apart i =
      let a = months-apart (c.quarter * 3 + 2) (c.quarter * 3 + 0) i (ground arith) in
      let b = months-apart (c.quarter * 3 + 1) (c.quarter * 3 + 0) i (ground arith) in ground arith

  -- the incidents of the months, in the order in which they are shown
  abbrev pub shown : List MonthBucket → List Incident
  shown [] = []
  shown (b ∷ bs) = b.incidents ++ shown bs

  -- The three months of a quarter hold exactly the incidents with a valid date in the quarter, each
  -- once.
  pub group_incidents_by_quarter_months-perm :
      (label : ℕ → ℕ → String) (incidents : List Incident)
      → Perm
          (shown (group_incidents_by_quarter_months dates label incidents c))
          (filter (λ i. in_quarter c (local_date dates i.created_at)) incidents)
  unfolding group_incidents_by_quarter_months
  group_incidents_by_quarter_months-perm label incidents =
      let first = is_in_month dates c (c.quarter * 3 + 0) in
      let second = is_in_month dates c (c.quarter * 3 + 1) in
      let third = is_in_month dates c (c.quarter * 3 + 2) in
      let late : Incident → Bool = λ i. third i || second i in
      Perm.trans
        (Perm.append (sort-perm _ (filter third incidents)) (
          Perm.append (sort-perm _ (filter second incidents))
            (Perm.append (sort-perm _ (filter first incidents)) (Perm.refl []))))
        (rw
          (
            append-nil (filter first incidents),
            ← append_assoc (filter third incidents) (filter second incidents)
                (filter first incidents),
          )
          (Perm.trans
            (Perm.append_right (filter first incidents) (
              filter-or-perm third second late incidents (λ i. refl)
                (λ i. months-apart _ _ i (ground arith))))
            (filter-or-perm late first (λ i. in_quarter c (local_date dates i.created_at)) incidents
              in_quarter-months early-apart)))
