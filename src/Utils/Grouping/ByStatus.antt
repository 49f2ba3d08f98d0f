-- ===== src/Utils/Grouping/ByStatus.antt =====
-- Lemmas on groupIncidentsByStatus of apps/web/src/lib/utils.ts.
use mathlib.Core.Path.{◌≡◌, refl}
use mathlib.Core.Logic.{◌≢◌, ◌⊎◌, inl, inr}
use mathlib.Core.Bool.{true, false, not}
use mathlib.Core.List.{List, [], ◌∷◌, ◌++◌, Perm, append-nil, perm_append_comm, cons-ne-nil}
use mathlib.Core.List.Perm
use native.Mathlib.Omega.{arith}
use statora.Prelude.Lists.{filter, All, All-map, filter-All, filter-not-perm}
use statora.Prelude.Sort.{sort, sort-perm, sort-IsSorted, IsSorted}
use statora.Prelude.Perms.{join, filter-IsSorted}
use statora.Types.Status.{is_resolved}
use statora.Types.Incident.{Incident}
use statora.Utils.Dates.{Dates}
use statora.Utils.Grouping.{
  IncidentStatusGroup, status_then_newest, push_unless_empty, group_incidents_by_status,
}
use statora.Utils.Grouping.Laws.{HasValidDate, status_then_newest-IsOrder}

-- what the key of a group promises of its incidents
abbrev pub KeyFits : IncidentStatusGroup → Type 0
KeyFits g =
    ((g.key ≡ "active") × All (λ i. is_resolved i.status ≡ false) g.incidents)
    ⊎ ((g.key ≡ "resolved") × All (λ i. is_resolved i.status ≡ true) g.incidents)

-- two arrays pushed in turn
two_groups : List Incident → List Incident → List IncidentStatusGroup
two_groups active resolved =
    push_unless_empty "resolved" "Resolved Incidents" resolved
      (push_unless_empty "active" "Active Incidents" active [])

join-two_groups :
    (active resolved : List Incident)
    → join (λ g. g.incidents) (two_groups active resolved) ≡ active ++ resolved
unfolding two_groups
join-two_groups [] [] = refl
join-two_groups [] (j ∷ js) = append-nil (j ∷ js)
join-two_groups (i ∷ is) [] = rw append-nil
join-two_groups (i ∷ is) (j ∷ js) = rw append-nil

two_groups-All :
    (P : IncidentStatusGroup → Type 0) (active resolved : List Incident)
    → (active ≢ [] → P (record { key = "active"; label = "Active Incidents"; incidents = active }))
    → (resolved ≢ []
        → P (record { key = "resolved"; label = "Resolved Incidents"; incidents = resolved }))
    → All P (two_groups active resolved)
unfolding two_groups
two_groups-All P [] [] p q = tt
two_groups-All P [] (j ∷ js) p q = (q (cons-ne-nil j js), tt)
two_groups-All P (i ∷ is) [] p q = (p (cons-ne-nil i is), tt)
two_groups-All P (i ∷ is) (j ∷ js) p q = (p (cons-ne-nil i is), (q (cons-ne-nil j js), tt))

module _ (dates : Dates) where
  -- The groups by status hold every incident exactly once, and no other.
  pub group_incidents_by_status-perm :
      (incidents : List Incident)
      → Perm (join (λ g. g.incidents) (group_incidents_by_status dates incidents)) incidents
  unfolding group_incidents_by_status two_groups
  group_incidents_by_status-perm incidents =
      let sorted = sort (status_then_newest dates) incidents in
      let active = filter (λ (i : Incident). not (is_resolved i.status)) sorted in
      let resolved = filter (λ (i : Incident). is_resolved i.status) sorted in
      rw (join-two_groups active resolved) (
        Perm.trans (perm_append_comm active resolved) (
          Perm.trans (filter-not-perm (λ i. is_resolved i.status) sorted)
            (sort-perm (status_then_newest dates) incidents)))

  -- Each group that is shown holds some incidents, and those that its key names.
  pub group_incidents_by_status-KeyFits :
      (incidents : List Incident)
      → All (λ g. (g.incidents ≢ []) × KeyFits g) (group_incidents_by_status dates incidents)
  unfolding group_incidents_by_status two_groups
  group_incidents_by_status-KeyFits incidents =
      let sorted = sort (status_then_newest dates) incidents in
      two_groups-All (λ g. (g.incidents ≢ []) × KeyFits g)
        (filter (λ i. not (is_resolved i.status)) sorted)
        (filter (λ i. is_resolved i.status) sorted)
        (λ n. (n, inl (refl, All-map _ _ (λ i e. not_true i e) _ (filter-All _ sorted))))
        (λ n. (n, inr (refl, filter-All (λ i. is_resolved i.status) sorted)))
    where
      not_true : (i : Incident) → not (is_resolved i.status) ≡ true → is_resolved i.status ≡ false
      not_true i e = ground arith

  -- If every incident has a valid date, the incidents of each group stand in the order by status
  -- and then the newest first.
  pub group_incidents_by_status-IsSorted :
      (incidents : List Incident)
      → All (HasValidDate dates) incidents
      → All
          (λ g. IsSorted (status_then_newest dates) g.incidents)
          (group_incidents_by_status dates incidents)
  unfolding group_incidents_by_status two_groups
  group_incidents_by_status-IsSorted incidents valid =
      let sorted = sort-IsSorted (status_then_newest-IsOrder dates) incidents valid in
      two_groups-All (λ g. IsSorted (status_then_newest dates) g.incidents) _ _
        (λ n. filter-IsSorted (status_then_newest dates) _ _ sorted)
        (λ n. filter-IsSorted (status_then_newest dates) _ _ sorted)
