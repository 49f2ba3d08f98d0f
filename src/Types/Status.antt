-- ===== src/Types/Status.antt =====
-- The string unions of types/index.ts, with the tests that the code makes on them.
use Prim.Native.Nat.{ℕ}
use mathlib.Core.Path.{◌≡◌}
use mathlib.Core.Bool.{Bool, true, false}
use native.Mathlib.Omega.{arith}
use statora.Prelude.Equality.{KeyEquality, embedded}

pub data ComponentStatus : Type 0 where
  operational degraded_performance partial_outage major_outage maintenance : ComponentStatus

pub data IncidentStatus : Type 0 where
  investigating identified monitoring resolved : IncidentStatus

pub data IncidentImpact : Type 0 where
  no_impact minor major critical : IncidentImpact

pub data IncidentVisibilityState : Type 0 where
  draft published : IncidentVisibilityState

pub data MaintenanceStatus : Type 0 where
  draft scheduled active completed in_progress : MaintenanceStatus

pub data MonitorType : Type 0 where
  http tcp dns ping ssl : MonitorType

pub data MonitorLogStatus : Type 0 where
  up down : MonitorLogStatus

pub data UserRole : Type 0 where
  admin operator : UserRole

pub data UserStatus : Type 0 where
  active disabled invited : UserStatus

-- `status === 'resolved'`
abbrev pub is_resolved : IncidentStatus → Bool
is_resolved resolved = true
is_resolved _ = false

-- `===` on the states of a component, which differ as their places in the union do
abbrev place : ComponentStatus → ℕ
place operational = 0
place degraded_performance = 1
place partial_outage = 2
place major_outage = 3
place maintenance = 4

pub place-injective : (a b : ComponentStatus) → place a ≡ place b → a ≡ b
place-injective a b h = ground arith

instance abbrev pub ComponentStatus_eq : KeyEquality ComponentStatus
ComponentStatus_eq = embedded place place-injective
