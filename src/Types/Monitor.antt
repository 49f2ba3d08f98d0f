-- ===== src/Types/Monitor.antt =====
-- Monitors, as far as the pages of the administration read them.
use Prim.Native.Nat.{ℕ}
use Prim.Native.String.{String}
use mathlib.Core.Bool.{Bool}
use mathlib.Core.Option.{Option}
use mathlib.Core.List.{List}
use statora.Prelude.Reading.{Reading}
use statora.Types.Status.{MonitorType}

pub record Advanced : Type 0 where
  pub domain_expiry : Option Bool
  pub cert_expiry : Option Bool
  pub ignore_tls_error : Option Bool

-- The days of the thresholds are whole and not negative; the results of the last check are left
-- out, since the page only shows them.
pub record Monitor : Type 0 where
  pub id : String
  pub name : String
  pub type : MonitorType
  pub target : String
  pub advanced : Option Advanced
  pub ssl_thresholds : Option (List ℕ)
  pub interval_seconds : Reading
  pub timeout_seconds : Reading
  pub component_id : String
  pub sub_component_id : Option String
