-- ===== src/Utils/Grouping/ByYear.antt =====
-- Lemmas on groupIncidentsByYearQuarterMonth of apps/web/src/lib/utils.ts.
use Prim.Native.Nat.{ℕ, zero, suc}
use Prim.Native.String.{String}
use mathlib.Core.Path.{◌≡◌, refl, fun_ext, subst}
use mathlib.Core.Bool.{Bool, false, ◌||◌, ◌&&◌}
use mathlib.Core.Option
use mathlib.Core.Option.{Option, none, some}
use mathlib.Core.List.{List, [], ◌∷◌, ◌++◌, map, Perm, append_assoc, append-nil}
use mathlib.Core.List.Perm
use native.Mathlib.Omega.{arith}
use statora.Prelude.Tests.{ltb, is_some}
use statora.Prelude.Lists.{filter}
use statora.Prelude.Equality.{◌==◌, ℕ_eq, Option_eq}
use statora.Prelude.Sort.{sort, sort-perm}
use statora.Prelude.Buckets.{bucket, get_or_empty, values-bucket, bucket-HasDistinctKeys}
use statora.Prelude.Perms.{
  join, join-map, join-perm, join-sort, filter-perm, filter-or-perm, filter-join, join-get_or_empty,
}
use statora.Types.Incident.{Incident}
use statora.Utils.Dates.{Dates, full_year, month_of, newest_first, get_quarter_label}
use statora.Utils.Grouping.{
  HistoryYearGroup, created_newest_first, month_group, months_from, year_group,
  group_incidents_by_year_quarter_month,
}

-- the incidents that a year shows, month after month
abbrev pub year_incidents : HistoryYearGroup → List Incident
year_incidents g = join (λ q. join (λ m. m.incidents) q.months) g.quarters

abbrev month_below : ℕ → Option ℕ → Bool
month_below n none = false
month_below n (some m) = ltb m n

module _ (dates : Dates) (month_label : ℕ → String) where
  -- the month of the incident comes before month `n`
  abbrev before_month : ℕ → Incident → Bool
  before_month n i = month_below n (month_of dates i.created_at)

  -- the incidents of the first `n` months
  abbrev months_of : List Incident → ℕ → List Incident
  months_of xs zero = []
  months_of xs (suc n) = months_of xs n ++ (month_group dates month_label xs n).incidents

  before_month-suc :
      (n : ℕ) (i : Incident)
      → before_month (suc n) i ≡ (before_month n i || (month_of dates i.created_at == some n))
  before_month-suc n i = ground arith

  before_month_excl :
      (n : ℕ) (i : Incident) → (before_month n i && (month_of dates i.created_at == some n)) ≡ false
  before_month_excl n i = ground arith

  filter_none : (xs : List Incident) → filter (before_month 0) xs ≡ []
  filter_none [] = refl
  filter_none (x ∷ xs) = ground (arith, filter_none xs)

  months_of-perm : (xs : List Incident) (n : ℕ) → Perm (months_of xs n) (filter (before_month n) xs)
  unfolding month_group
  months_of-perm xs zero = rw filter_none (Perm.refl [])
  months_of-perm xs (suc n) =
      Perm.trans (Perm.append (months_of-perm xs n) (sort-perm (created_newest_first dates) _)) (
        filter-or-perm (before_month n) (λ i. month_of dates i.created_at == some n)
          (before_month (suc n)) xs (before_month-suc n) (before_month_excl n))

  month_below_all :
      (o : Option ℕ)
      → month_below 12 (Option.map (λ d. d.month) (Option.map dates.local o)) ≡ is_some o
  month_below_all none = refl
  month_below_all (some t) = ground (arith, dates.month_lt t)

  -- a valid date has one of the twelve months
  before_month_all : (i : Incident) → before_month 12 i ≡ is_some (dates.time i.created_at)
  before_month_all i = month_below_all (dates.time i.created_at)

  year_group-months :
      (year : Option ℕ) (xs : List Incident)
      → year_incidents (year_group dates month_label year xs) ≡ months_of xs 12
  unfolding year_group months_from get_quarter_label
  year_group-months year xs = simp (append_assoc, append-nil)

  is_valid : Incident → Bool
  is_valid i = is_some (dates.time i.created_at)

  year_group-perm :
      (year : Option ℕ) (xs : List Incident)
      → Perm (year_incidents (year_group dates month_label year xs)) (filter is_valid xs)
  unfolding is_valid
  year_group-perm year xs = rw (year_group-months year xs) (
      subst (λ (p : Incident → Bool). Perm (months_of xs 12) (filter p xs))
        (fun_ext before_month_all) (months_of-perm xs 12))

  -- The history holds every incident whose date is valid exactly once, and no other.
  pub group_incidents_by_year_quarter_month-perm :
      (incidents : List Incident)
      → Perm
          (join year_incidents (group_incidents_by_year_quarter_month dates month_label incidents))
          (filter (λ i. is_some (dates.time i.created_at)) incidents)
  unfolding group_incidents_by_year_quarter_month is_valid
  group_incidents_by_year_quarter_month-perm incidents =
      let by_year = bucket (λ (i : Incident). full_year dates i.created_at) incidents in
      let years = map (λ (e : Option ℕ × List Incident). e.0) by_year in
      let of_year = λ (y : Option ℕ). get_or_empty y by_year in
      rw join-map (
        Perm.trans
          (join-perm _ (λ y. filter is_valid (of_year y)) (sort newest_first years)
            (λ y. year_group-perm y (of_year y)))
          (rw (← filter-join is_valid of_year (sort newest_first years)) (
            filter-perm is_valid (
              Perm.trans (join-sort newest_first of_year years) (
                rw
                  (join-get_or_empty by_year
                    (bucket-HasDistinctKeys (λ i. full_year dates i.created_at) incidents))
                  (values-bucket (λ i. full_year dates i.created_at) incidents))))))
