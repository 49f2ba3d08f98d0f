-- ===== src/Monitoring.antt =====
-- apps/web/src/lib/statusCategoryMonitoring.ts: which services of a category are monitored.
use Prim.Native.Nat.{ℕ, ◌≤◌}
use mathlib.Core.Path.{◌≡◌}
use mathlib.Core.Bool.{Bool, not, ◌&&◌}
use mathlib.Core.List.{List, [], ◌∷◌}
use native.Mathlib.Omega.{arith}
use statora.Prelude.Tests.{ltb}
use statora.Prelude.Lists.{length, filter, any, length-filter-le}
use statora.Types.Service.{CategoryServiceStatus}
use statora.Types.Incident.{CategorySummary}

-- `service.uptimeHistory.length > 0`
unfoldable pub is_monitored : CategoryServiceStatus → Bool
is_monitored service = ltb 0 (length service.uptime_history)

unfoldable pub has_monitoring_data : CategorySummary → Bool
has_monitoring_data summary = any is_monitored summary.services

unfoldable pub get_monitored_service_count : CategorySummary → ℕ
get_monitored_service_count summary = length (filter is_monitored summary.services)

pub record MonitoringViewState : Type 0 where
  pub has_monitoring : Bool
  pub monitored_service_count : ℕ
  pub total_service_count : ℕ
  pub show_partial_monitoring_note : Bool

unfoldable pub get_monitoring_view_state : CategorySummary → MonitoringViewState
get_monitoring_view_state summary =
    let total_service_count = length summary.services in
    let monitored_service_count = get_monitored_service_count summary in
    let has_monitoring = ltb 0 monitored_service_count in
    record {
      has_monitoring = has_monitoring;
      monitored_service_count = monitored_service_count;
      total_service_count = total_service_count;
      show_partial_monitoring_note =
          has_monitoring && ltb monitored_service_count total_service_count;
    }

any-filter :
    (p : CategoryServiceStatus → Bool) (xs : List CategoryServiceStatus)
    → any p xs ≡ ltb 0 (length (filter p xs))
any-filter p [] = ground arith
any-filter p (x ∷ xs) = ground (arith, any-filter p xs)

-- some service passes the test, and some other does not
any-not-filter :
    (p : CategoryServiceStatus → Bool) (xs : List CategoryServiceStatus)
    → any (λ x. not (p x)) xs ≡ ltb (length (filter p xs)) (length xs)
any-not-filter p [] = ground arith
any-not-filter p (x ∷ xs) = ground (arith, any-not-filter p xs, length-filter-le p xs)

-- The view has monitoring exactly if some service has a history, it counts no more services than
-- there are, and the note of a partial monitoring is shown exactly if one service has a history
-- and another has none.
pub get_monitoring_view_state-notes :
    (summary : CategorySummary)
    → let view = get_monitoring_view_state summary in
      (view.has_monitoring ≡ has_monitoring_data summary)
      × (view.monitored_service_count ≤ view.total_service_count)
      × (view.show_partial_monitoring_note
          ≡ (any is_monitored summary.services && any (λ s. not (is_monitored s)) summary.services))
unfolding get_monitoring_view_state has_monitoring_data get_monitored_service_count
get_monitoring_view_state-notes summary = ground (
  arith,
  any-filter is_monitored summary.services,
  any-not-filter is_monitored summary.services,
  length-filter-le is_monitored summary.services,
)
