-- ===== src/Utils/Grouping/Days.antt =====
-- Lemmas on groupIncidentsByRecentDays of apps/web/src/lib/utils.ts.
use Prim.Native.Nat.{ℕ, zero, suc, ◌+◌, ◌≤◌}
use mathlib.Core.Path.{◌≡◌, refl, ap, fun_ext, ◌∙◌}
use mathlib.Core.Bool.{Bool, true}
use mathlib.Core.Option
use mathlib.Core.Option.{Option, none, some}
use mathlib.Core.List.{List, [], ◌∷◌, map, Perm}
use native.Mathlib.Omega.{arith}
use statora.Prelude.Tests.{is_some, or_else}
use statora.Prelude.Lists.{filter, filter-All, All, All-map}
use statora.Prelude.Equality.{String_eq}
use statora.Prelude.Sort.{sort, sort-perm, sort-All, sort-IsSorted, IsSorted}
use statora.Prelude.Buckets.{bucket, get_or_empty, get_or_empty-bucket}
use statora.Types.Incident.{Incident}
use statora.Utils.Dates.{
  LocalDate, Dates, local_date, format_local_date_key, to_date_key, newest_first,
}
use statora.Utils.DateKeys.{is_on, ==-format_local_date_key}
use statora.Utils.Grouping.{
  RecentIncidentDayGroup, keys_from, get_recent_date_keys, created_newest_first,
  group_incidents_by_recent_days,
}
use statora.Utils.Grouping.Laws.{HasValidDate, created_newest_first-IsOrder}

module _ (dates : Dates) where
  -- the time of an incident whose date is valid
  abbrev pub time_of : Incident → ℕ
  time_of i = or_else (dates.time i.created_at) 0

  -- no incident is later than one that stands before it
  abbrev pub IsNewestFirst : List Incident → Type 0
  IsNewestFirst [] = Unit
  IsNewestFirst (i ∷ is) = All (λ j. time_of j ≤ time_of i) is × IsNewestFirst is

  -- created on that day
  abbrev pub created_on : LocalDate → Incident → Bool
  created_on d i = is_on (local_date dates i.created_at) d

  -- the group of a day: its key, and the incidents created on it, the newest first
  abbrev pub IsDay : LocalDate → List Incident → RecentIncidentDayGroup → Type 0
  IsDay d incidents g =
      (g.date_key ≡ format_local_date_key (some d))
      × Perm g.incidents (filter (created_on d) incidents)
      × IsNewestFirst g.incidents

  -- one group for each of the days, from the first offset on
  abbrev pub AreDays :
      (ℕ → LocalDate) → List Incident → ℕ → ℕ → List RecentIncidentDayGroup → Type 0
  AreDays days_ago incidents offset zero [] = Unit
  AreDays days_ago incidents offset zero (g ∷ gs) = ⊥
  AreDays days_ago incidents offset (suc days) [] = ⊥
  AreDays days_ago incidents offset (suc days) (g ∷ gs) =
      IsDay (days_ago offset) incidents g × AreDays days_ago incidents (offset + 1) days gs

  valid-is_on :
      (d : LocalDate) (o : Option ℕ) → is_on (Option.map dates.local o) d ≡ true → is_some o ≡ true
  valid-is_on d none h = h
  valid-is_on d (some t) h = refl

  valid-created_on : (d : LocalDate) (i : Incident) → created_on d i ≡ true → HasValidDate dates i
  valid-created_on d i h = valid-is_on d (dates.time i.created_at) h

  later :
      (i j : Incident)
      → HasValidDate dates i
      → HasValidDate dates j
      → created_newest_first dates i j ≡ true
      → time_of j ≤ time_of i
  unfolding created_newest_first newest_first
  later i j p q h = ground arith

  newest-sorted :
      (is : List Incident)
      → All (HasValidDate dates) is
      → IsSorted (created_newest_first dates) is
      → IsNewestFirst is
  newest-sorted [] v h = tt
  newest-sorted (i ∷ is) v h = (later_than i is v.0 v.1 h.0, newest-sorted is v.1 h.1)
    where
      later_than :
          (j : Incident) (js : List Incident)
          → HasValidDate dates j
          → All (HasValidDate dates) js
          → All (λ k. created_newest_first dates j k ≡ true) js
          → All (λ k. time_of k ≤ time_of j) js
      later_than j [] p q h = tt
      later_than j (k ∷ js) p q h = (later j k p q.0 h.0, later_than j js p q.1 h.1)

  bucket-IsDay :
      (d : LocalDate) (incidents : List Incident)
      → let key = format_local_date_key (some d) in
        IsDay d incidents (record {
          date_key = key;
          incidents =
              sort
                (created_newest_first dates)
                (get_or_empty key (bucket (λ i. to_date_key dates i.created_at) incidents));
        })
  unfolding to_date_key
  bucket-IsDay d incidents =
      let key = format_local_date_key (some d) in
      let there =
        get_or_empty-bucket (λ (i : Incident). to_date_key dates i.created_at) key incidents
        ∙ ap (λ (p : Incident → Bool). filter p incidents)
            (fun_ext λ i. ==-format_local_date_key (local_date dates i.created_at) d) in
      let found = filter (created_on d) incidents in
      let valid =
        All-map (λ i. created_on d i ≡ true) (HasValidDate dates) (valid-created_on d) found
          (filter-All (created_on d) incidents) in
      rw there (
        refl,
        sort-perm (created_newest_first dates) found,
        newest-sorted (sort (created_newest_first dates) found)
            (sort-All (created_newest_first dates) (HasValidDate dates) found valid)
            (sort-IsSorted (created_newest_first-IsOrder dates) found valid),
      )

  keys_from-AreDays :
      (days_ago : ℕ → LocalDate) (incidents : List Incident) (offset days : ℕ)
      → AreDays days_ago incidents offset days (
          map
            (λ key. record {
              date_key = key;
              incidents =
                  sort
                    (created_newest_first dates)
                    (get_or_empty key (bucket (λ i. to_date_key dates i.created_at) incidents));
            })
            (keys_from days_ago offset days))
  unfolding keys_from
  keys_from-AreDays days_ago incidents offset zero = tt
  keys_from-AreDays days_ago incidents offset (suc days) = (
    bucket-IsDay (days_ago offset) incidents,
    keys_from-AreDays days_ago incidents (offset + 1) days,
  )

  -- Grouping by recent days gives one group for each of the days, today first: its key is that of
  -- the day, and its incidents are those whose date in the local time zone is the day, each once,
  -- none later than one before it.
  pub group_incidents_by_recent_days-AreDays :
      (days_ago : ℕ → LocalDate) (incidents : List Incident) (days : ℕ)
      → AreDays days_ago incidents 0 days
          (group_incidents_by_recent_days dates days_ago incidents days)
  unfolding group_incidents_by_recent_days get_recent_date_keys
  group_incidents_by_recent_days-AreDays days_ago incidents days =
      keys_from-AreDays days_ago incidents 0 days
