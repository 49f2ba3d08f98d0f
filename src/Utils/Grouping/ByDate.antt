-- ===== src/Utils/Grouping/ByDate.antt =====
-- Lemmas on groupIncidentsByDate of apps/web/src/lib/utils.ts.
use Prim.Native.Nat.{Ordering}
use Prim.Native.String.{String}
use mathlib.Core.Path.{◌≡◌}
use mathlib.Core.Logic.{◌≢◌}
use mathlib.Core.List.{List, [], Perm}
use mathlib.Core.List.Perm
use statora.Prelude.Lists.{All, All-map, All-intro, map-All}
use statora.Prelude.Equality.{String_eq}
use statora.Prelude.Sort.{
  sort, sort-perm, sort-All, sort-IsSorted, sort-ne-nil, map-IsSorted, IsSorted, IsOrder,
}
use statora.Prelude.Buckets.{bucket, values-bucket, bucket-IsKeyed, bucket-All, IsKeyed}
use statora.Prelude.Perms.{join, join-map, join-perm, join-sort, join-values}
use statora.Types.Incident.{Incident}
use statora.Utils.Dates.{Dates, to_date_key}
use statora.Utils.Grouping.{
  IncidentDateGroup, created_newest_first, later_date_first, group_incidents_by_date,
}
use statora.Utils.Grouping.Laws.{HasValidDate, created_newest_first-IsOrder}

-- a group is not empty and holds incidents of its own date
abbrev pub IsDateGroup : Dates → IncidentDateGroup → Type 0
IsDateGroup dates g =
    (g.incidents ≢ []) × All (λ i. to_date_key dates i.created_at ≡ g.date) g.incidents

-- the entries of the map are ordered as their dates are
entries-IsOrder :
    (locale_compare : String → String → Ordering)
    → IsOrder (λ (s : String). Unit {0}) (later_date_first locale_compare)
    → IsOrder
        (λ (e : String × List Incident). Unit {0})
        (λ a b. later_date_first locale_compare a.0 b.0)
entries-IsOrder locale_compare o = record {
  total = λ x y p q. o.total x.0 y.0 p q;
  trans = λ x y z p q r. o.trans x.0 y.0 z.0 p q r;
}

module _ (dates : Dates) where
  module _ (locale_compare : String → String → Ordering) where
    -- The groups by date hold every incident exactly once, and no other.
    pub group_incidents_by_date-perm :
        (incidents : List Incident)
        → Perm
            (join (λ g. g.incidents) (group_incidents_by_date dates locale_compare incidents))
            incidents
    unfolding group_incidents_by_date
    group_incidents_by_date-perm incidents =
        let entries = bucket (λ (i : Incident). to_date_key dates i.created_at) incidents in
        let newest = sort (created_newest_first dates) in
        rw join-map (
          Perm.trans (join-perm (λ e. newest e.1) (λ e. e.1) _ (λ e. sort-perm _ e.1)) (
            Perm.trans
              (join-sort (λ a b. later_date_first locale_compare a.0 b.0) (λ e. e.1) entries)
              (rw join-values (values-bucket (λ i. to_date_key dates i.created_at) incidents))))

    -- No group by date is empty, and each holds incidents of its own date only.
    pub group_incidents_by_date-All :
        (incidents : List Incident)
        → All (IsDateGroup dates) (group_incidents_by_date dates locale_compare incidents)
    unfolding group_incidents_by_date
    group_incidents_by_date-All incidents = map-All (IsDateGroup dates) _ _ (
        All-map (IsKeyed (λ i. to_date_key dates i.created_at)) _
          (λ entry (some_there, dated). (
            sort-ne-nil (created_newest_first dates) entry.1 some_there,
            sort-All (created_newest_first dates) (λ i. to_date_key dates i.created_at ≡ entry.0)
                entry.1 dated,
          ))
          _
          (sort-All _ (IsKeyed (λ i. to_date_key dates i.created_at)) _
            (bucket-IsKeyed (λ i. to_date_key dates i.created_at) incidents)))

    -- If dates are compared consistently and every incident has a valid date, the groups stand with
    -- the later date first, and the incidents of each with the newest first.
    pub group_incidents_by_date-IsSorted :
        (incidents : List Incident)
        → IsOrder (λ (s : String). Unit {0}) (later_date_first locale_compare)
        → All (HasValidDate dates) incidents
        → IsSorted
            (λ g h. later_date_first locale_compare g.date h.date)
            (group_incidents_by_date dates locale_compare incidents)
          × All
              (λ g. IsSorted (created_newest_first dates) g.incidents)
              (group_incidents_by_date dates locale_compare incidents)
    unfolding group_incidents_by_date
    group_incidents_by_date-IsSorted incidents collated valid = (
      map-IsSorted _ _ _ (
          sort-IsSorted (entries-IsOrder locale_compare collated) _
            (All-intro (λ e. Unit {0}) _ (λ e. tt))),
      map-All (λ g. IsSorted (created_newest_first dates) g.incidents) _ _
          (All-map (λ e. All (HasValidDate dates) e.1) _
            (λ e v. sort-IsSorted (created_newest_first-IsOrder dates) e.1 v) _
            (sort-All _ (λ e. All (HasValidDate dates) e.1) _
              (bucket-All (HasValidDate dates) (λ i. to_date_key dates i.created_at) incidents
                valid))),
    )
