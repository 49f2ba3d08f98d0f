-- ===== src/Public/Category.antt =====
-- apps/web/src/pages/StatusCategoryPage.tsx: which incidents concern a service, and the status that
-- its card shows. `toLowerCase()` is the run-time's.
use Prim.Native.Nat.{ℕ, zero, suc, max, ◌≤◌}
use Prim.Native.String.{String, ◌++◌}
use mathlib.Core.Path.{◌≡◌, refl, ap, ◌∙◌}
use mathlib.Core.Logic.{inl, inr}
use mathlib.Core.Bool.{Bool, true, false, ◌||◌}
use mathlib.Core.Option.{Option, none, some}
use mathlib.Core.List.{List, [], ◌∷◌}
use native.Mathlib.Omega.{arith}
use statora.Prelude.Tests.{ltb, if◌then◌else◌, Bool-cases, ltb→lt}
use statora.Prelude.Equality.{◌==◌, String_eq}
use statora.Prelude.Decimal.{print}
use statora.Prelude.Lists.{length, filter, any}
use statora.Prelude.Text.{trim}
use statora.Types.Status.{
  ComponentStatus, operational, degraded_performance, partial_outage, major_outage, maintenance,
  IncidentStatus, resolved, IncidentImpact, no_impact, minor, major, critical,
}
use statora.Types.Service.{Component, SubComponent, CategoryServiceStatus}
use statora.Types.Incident.{Incident, IncidentAffectedComponentTarget}

-- of the names that count as over, an incident's status is only ever 'resolved'
unfoldable pub is_incident_active : IncidentStatus → Bool
is_incident_active resolved = false
is_incident_active _ = true

unfoldable pub impact_rank : IncidentImpact → ℕ
impact_rank critical = 3
impact_rank major = 2
impact_rank minor = 1
impact_rank no_impact = 0

unfoldable pub impact_to_status : IncidentImpact → ComponentStatus
impact_to_status minor = degraded_performance
impact_to_status major = partial_outage
impact_to_status critical = major_outage
impact_to_status no_impact = operational

module _ (lower_case : String → String) where
  -- `name.trim().toLowerCase()`
  unfoldable pub plain_name : String → String
  unfolding trim
  plain_name name = lower_case (trim name)

  -- the same id, or the same name
  abbrev is_service : String → String → CategoryServiceStatus → Bool
  is_service id name service = (id == service.id) || (plain_name name == plain_name service.name)

  abbrev part_is_service : CategoryServiceStatus → Option (List SubComponent) → Bool
  part_is_service service none = false
  part_is_service service (some subs) = any (λ s. is_service s.id s.name service) subs

  abbrev target_is_service : CategoryServiceStatus → IncidentAffectedComponentTarget → Bool
  target_is_service service t =
      is_service t.component.id t.component.name service || part_is_service service t.sub_components

  abbrev affects_by :
      Option (List IncidentAffectedComponentTarget) → List Component → CategoryServiceStatus → Bool
  affects_by (some (t ∷ ts)) components service = any (target_is_service service) (t ∷ ts)
  affects_by _ components service = any (λ c. is_service c.id c.name service) components

  unfoldable pub incident_affects_service : Incident → CategoryServiceStatus → Bool
  unfolding plain_name
  incident_affects_service incident service =
      affects_by incident.affected_component_targets incident.affected_components service

-- `impactRank` of the impact so far, `none` for ''
abbrev pub rank_so_far : Option IncidentImpact → ℕ
rank_so_far none = 0
rank_so_far (some impact) = impact_rank impact

-- the step of `reduce`
abbrev worst_of : Option IncidentImpact → IncidentImpact → Option IncidentImpact
worst_of current impact =
    if ltb (rank_so_far current) (impact_rank impact) then some impact else current

unfoldable pub worst_from : Option IncidentImpact → List Incident → Option IncidentImpact
unfolding impact_rank
worst_from current [] = current
worst_from current (i ∷ is) = worst_from (worst_of current i.impact) is

unfoldable pub active_incidents : List Incident → List Incident
unfolding is_incident_active
active_incidents incidents = filter (λ i. is_incident_active i.status) incidents

unfoldable pub highest_impact : List Incident → Option IncidentImpact
unfolding worst_from active_incidents
highest_impact incidents = worst_from none (active_incidents incidents)

abbrev shown_status : Option IncidentImpact → ComponentStatus → ComponentStatus
shown_status none status = status
shown_status (some impact) status = impact_to_status impact

unfoldable pub display_status : CategoryServiceStatus → List Incident → ComponentStatus
unfolding highest_impact impact_to_status
display_status service incidents = shown_status (highest_impact incidents) service.status

unfoldable pub primary_status_label : List Incident → String
unfolding active_incidents print
primary_status_label incidents =
    let count = length (active_incidents incidents) in
    if ltb 0 count
    then print count ++ " ACTIVE INCIDENT" ++ (if ltb 1 count then "S" else "")
    else "NO ACTIVE INCIDENTS"

-- the greatest rank of the incidents
abbrev pub max_rank : List Incident → ℕ
max_rank [] = 0
max_rank (i ∷ is) = max (impact_rank i.impact) (max_rank is)

-- the status that a rank stands for, which for 0 is the service's own
abbrev pub status_of_rank : ℕ → ComponentStatus → ComponentStatus
status_of_rank zero own = own
status_of_rank (suc zero) own = degraded_performance
status_of_rank (suc (suc zero)) own = partial_outage
status_of_rank (suc (suc (suc n))) own = major_outage

worst_of-rank :
    (current : Option IncidentImpact) (impact : IncidentImpact)
    → rank_so_far (worst_of current impact) ≡ max (rank_so_far current) (impact_rank impact)
worst_of-rank current impact = elim (Bool-cases (ltb (rank_so_far current) (impact_rank impact))) [
  | inl worse ↦
      let lt = ltb→lt (rank_so_far current) (impact_rank impact) worse in
      rw worse (omega (arith, lt))
  | inr same ↦ rw same (ground arith)
]

worst_from-rank :
    (current : Option IncidentImpact) (is : List Incident)
    → rank_so_far (worst_from current is) ≡ max (rank_so_far current) (max_rank is)
unfolding worst_from
worst_from-rank current [] = omega arith
worst_from-rank current (i ∷ is) =
    let first = worst_of-rank current i.impact in
    worst_from-rank (worst_of current i.impact) is ∙ ground (arith, first)

-- an impact that is kept is one
abbrev IsProper : Option IncidentImpact → Type 0
IsProper none = Unit
IsProper (some impact) = 1 ≤ impact_rank impact

worst_of-IsProper :
    (current : Option IncidentImpact) (impact : IncidentImpact)
    → IsProper current
    → IsProper (worst_of current impact)
worst_of-IsProper current impact h =
    elim (Bool-cases (ltb (rank_so_far current) (impact_rank impact))) [
      | inl worse ↦
          let lt = ltb→lt (rank_so_far current) (impact_rank impact) worse in
          rw worse (omega (arith, lt))
      | inr same ↦ rw same h
    ]

worst_from-IsProper :
    (current : Option IncidentImpact) (is : List Incident)
    → IsProper current
    → IsProper (worst_from current is)
unfolding worst_from
worst_from-IsProper current [] h = h
worst_from-IsProper current (i ∷ is) h =
    worst_from-IsProper (worst_of current i.impact) is (worst_of-IsProper current i.impact h)

shown_status-rank :
    (o : Option IncidentImpact) (own : ComponentStatus)
    → IsProper o
    → shown_status o own ≡ status_of_rank (rank_so_far o) own
unfolding impact_to_status impact_rank
shown_status-rank none own h = refl
shown_status-rank (some no_impact) own h = absurd (omega (arith, h))
shown_status-rank (some minor) own h = refl
shown_status-rank (some major) own h = refl
shown_status-rank (some critical) own h = refl

-- The card of a service shows the status of the worst impact among its active incidents, and the
-- service's own status exactly if no active incident has an impact.
pub display_status-worst :
    (service : CategoryServiceStatus) (incidents : List Incident)
    → display_status service incidents
      ≡ status_of_rank (max_rank (active_incidents incidents)) service.status
unfolding display_status highest_impact
display_status-worst service incidents =
    let active = active_incidents incidents in
    let rank = worst_from-rank none active in
    shown_status-rank (worst_from none active) service.status (worst_from-IsProper none active tt)
    ∙ ap (λ r. status_of_rank r service.status) (worst_from-rank none active ∙ omega arith)

-- components/statuspage/StatusPagePrimitives.tsx
pub data StatusPageSeverity : Type 0 where
  well low medium high : StatusPageSeverity

unfoldable pub component_status_to_severity : ComponentStatus → StatusPageSeverity
component_status_to_severity degraded_performance = low
component_status_to_severity partial_outage = medium
component_status_to_severity major_outage = high
component_status_to_severity maintenance = low
component_status_to_severity operational = well

unfoldable pub incident_impact_to_severity : IncidentImpact → StatusPageSeverity
incident_impact_to_severity minor = low
incident_impact_to_severity major = medium
incident_impact_to_severity critical = high
incident_impact_to_severity no_impact = well

-- The status that an impact gives a service has the severity of the impact.
pub severity-impact_to_status :
    (impact : IncidentImpact)
    → component_status_to_severity (impact_to_status impact) ≡ incident_impact_to_severity impact
unfolding component_status_to_severity impact_to_status incident_impact_to_severity
severity-impact_to_status minor = refl
severity-impact_to_status major = refl
severity-impact_to_status critical = refl
severity-impact_to_status no_impact = refl
