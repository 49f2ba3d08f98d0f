-- ===== src/Utils/Grouping.antt =====
-- The groupings of incidents in lib/utils.ts.
pub mod Laws
pub mod Days
pub mod ByDate
pub mod ByStatus
pub mod ByYear
use Prim.Native.Nat.{ℕ, zero, suc, ◌+◌, Ordering}
use Prim.Native.String.{String}
use mathlib.Core.Bool.{Bool, true, false, not, ◌&&◌}
use mathlib.Core.Option.{Option, none, some}
use mathlib.Core.List.{List, [], ◌∷◌, ◌++◌, map}
use statora.Prelude.Tests.{leb, nat_eq, if◌then◌else◌, or_else}
use statora.Prelude.Lists.{filter, length}
use statora.Prelude.Equality.{KeyEquality, ◌==◌, ℕ_eq, String_eq, Option_eq}
use statora.Prelude.Sort.{sort}
use statora.Prelude.Buckets.{bucket, get_or_empty}
use statora.Types.Status.{
  IncidentStatus, investigating, identified, monitoring, resolved, is_resolved,
}
use statora.Types.Incident.{Incident}
use statora.Utils.Dates.{
  LocalDate, Dates, format_local_date_key, to_date_key, full_year, month_of, newest_first, Quarter,
  q1, q2, q3, q4, get_quarter_label,
}

pub record RecentIncidentDayGroup : Type 0 where
  pub date_key : String
  pub incidents : List Incident

pub record IncidentStatusGroup : Type 0 where
  pub key : String
  pub label : String
  pub incidents : List Incident

pub record IncidentDateGroup : Type 0 where
  pub date : String
  pub incidents : List Incident

pub record HistoryMonthGroup : Type 0 where
  pub month_index : ℕ
  pub month_label : String
  pub incidents : List Incident

pub record HistoryQuarterGroup : Type 0 where
  pub quarter : Quarter
  pub months : List HistoryMonthGroup

pub record HistoryYearGroup : Type 0 where
  pub year : Option ℕ
  pub quarters : List HistoryQuarterGroup

abbrev pub same_quarter : Quarter → Quarter → Bool
same_quarter q1 q1 = true
same_quarter q2 q2 = true
same_quarter q3 q3 = true
same_quarter q4 q4 = true
same_quarter _ _ = false

-- `groupOrder.indexOf(status)`
unfoldable pub group_order : IncidentStatus → ℕ
group_order investigating = 0
group_order identified = 1
group_order monitoring = 2
group_order resolved = 3

-- the rounds of `for (let offset = 0; offset < days; offset += 1)`
unfoldable pub keys_from : (ℕ → LocalDate) → ℕ → ℕ → List String
keys_from days_ago offset zero = []
keys_from days_ago offset (suc rounds) =
    format_local_date_key (some (days_ago offset)) ∷ keys_from days_ago (offset + 1) rounds

unfoldable pub get_recent_date_keys : (ℕ → LocalDate) → ℕ → List String
unfolding keys_from
get_recent_date_keys days_ago days = keys_from days_ago 0 days

-- `if (xs.length > 0) groups.push(…)`
abbrev pub push_unless_empty :
    String → String → List Incident → List IncidentStatusGroup → List IncidentStatusGroup
push_unless_empty key label [] groups = groups
push_unless_empty key label (i ∷ is) groups =
    groups ++ record { key = key; label = label; incidents = i ∷ is } ∷ []

-- `dateB.localeCompare(dateA)` is not positive
unfoldable pub later_date_first : (String → String → Ordering) → String → String → Bool
later_date_first locale_compare date_a date_b = elim (locale_compare date_b date_a) [
  | Ordering.gt ↦ false
  | _ ↦ true
]

module _ (dates : Dates) where
  -- `new Date(b.createdAt).getTime() - new Date(a.createdAt).getTime()`
  unfoldable pub created_newest_first : Incident → Incident → Bool
  created_newest_first a b = newest_first (dates.time a.created_at) (dates.time b.created_at)

  -- `days_ago offset` is the local date that many days before today
  unfoldable pub group_incidents_by_recent_days :
      (ℕ → LocalDate) → List Incident → ℕ → List RecentIncidentDayGroup
  group_incidents_by_recent_days days_ago incidents days =
      let incident_map = bucket (λ i. to_date_key dates i.created_at) incidents in
      map
        (λ key. record {
          date_key = key;
          incidents = sort created_newest_first (get_or_empty key incident_map);
        })
        (get_recent_date_keys days_ago days)

  -- the comparator of `groupIncidentsByStatus`
  unfoldable pub status_then_newest : Incident → Incident → Bool
  status_then_newest a b =
      if nat_eq (group_order a.status) (group_order b.status)
      then created_newest_first a b
      else leb (group_order a.status) (group_order b.status)

  unfoldable pub group_incidents_by_status : List Incident → List IncidentStatusGroup
  group_incidents_by_status incidents =
      let sorted = sort status_then_newest incidents in
      let active_incidents = filter (λ i. not (is_resolved i.status)) sorted in
      let resolved_incidents = filter (λ i. is_resolved i.status) sorted in
      push_unless_empty "resolved" "Resolved Incidents" resolved_incidents
        (push_unless_empty "active" "Active Incidents" active_incidents [])

  module _ (locale_compare : String → String → Ordering) where
    unfoldable pub group_incidents_by_date : List Incident → List IncidentDateGroup
    group_incidents_by_date incidents =
        let incident_map = bucket (λ i. to_date_key dates i.created_at) incidents in
        map (λ entry. record { date = entry.0; incidents = sort created_newest_first entry.1 })
          (sort (λ a b. later_date_first locale_compare a.0 b.0) incident_map)

  -- `new Date(year, monthIndex, 1).toLocaleString('en-US', { month: 'long' })`
  module _ (month_label : ℕ → String) where
    unfoldable pub month_group : List Incident → ℕ → HistoryMonthGroup
    month_group year_incidents month_index = record {
      month_index = month_index;
      month_label = month_label month_index;
      incidents =
          sort created_newest_first
            (filter (λ i. month_of dates i.created_at == some month_index) year_incidents);
    }

    -- the rounds of `for (let monthIndex = 0; …)` that push into one quarter's array
    unfoldable pub months_from : List Incident → Quarter → ℕ → ℕ → List HistoryMonthGroup
    months_from year_incidents q month_index zero = []
    months_from year_incidents q month_index (suc rounds) =
        let rest = months_from year_incidents q (month_index + 1) rounds in
        if same_quarter (get_quarter_label month_index) q
        then month_group year_incidents month_index ∷ rest
        else rest

    unfoldable pub year_group : Option ℕ → List Incident → HistoryYearGroup
    year_group year year_incidents = record {
      year = year;
      quarters =
          record { quarter = q1; months = months_from year_incidents q1 0 12 }
          ∷ record { quarter = q2; months = months_from year_incidents q2 0 12 }
          ∷ record { quarter = q3; months = months_from year_incidents q3 0 12 }
          ∷ record { quarter = q4; months = months_from year_incidents q4 0 12 }
          ∷ [];
    }

    unfoldable pub group_incidents_by_year_quarter_month : List Incident → List HistoryYearGroup
    group_incidents_by_year_quarter_month incidents =
        let by_year = bucket (λ i. full_year dates i.created_at) incidents in
        map (λ year. year_group year (get_or_empty year by_year))
          (sort newest_first (map (λ entry. entry.0) by_year))
