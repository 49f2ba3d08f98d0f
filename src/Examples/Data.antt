-- ===== src/Examples/Data.antt =====
-- Concrete users, sessions, calendars and incidents.
use Prim.Native.Nat.{ℕ, ◌+◌, ◌/◌, ◌%◌, ◌<◌}
use Prim.Native.String.{String}
use mathlib.Core.Bool.{true, ◌&&◌}
use mathlib.Core.Option.{none, some}
use mathlib.Core.List.{[]}
use native.Mathlib.Omega.{arith}
use statora.Prelude.Tests.{if◌then◌else◌}
use statora.Prelude.Equality.{◌==◌, String_eq}
use statora.Prelude.Decimal.{all_digits, read_digits}
use statora.Prelude.Text.{is_truthy}
use statora.Types.Status.{admin, IncidentStatus, minor}
use statora.Types.User.{User, StoredUserProfile}
use statora.Types.Incident.{Incident}
use statora.Auth.Storage.{LocalStorage}
use statora.Auth.{token_key}
use statora.Utils.Dates.{Dates, LocalDate}

abbrev pub empty_storage : LocalStorage
empty_storage = λ k. none

abbrev pub ann : User
ann = record {
  id = "u1";
  username = "ann";
  email = "ann@example.org";
  role = admin;
  mfa_enabled = some true;
  mfa_verified = some true;
}

abbrev pub ann_profile : StoredUserProfile
ann_profile = record {
  id = "u1";
  username = "ann";
  email = "ann@example.org";
  role = some admin;
  mfa_enabled = some true;
  mfa_verified = some true;
}

abbrev pub signed_in_storage : LocalStorage
signed_in_storage = λ k. if k == token_key then some "t1" else none

-- one day to the unit of time, months of 31 days
abbrev pub local_day : ℕ → LocalDate
local_day t = record { year = 2000 + t / 372; month = (t / 31) % 12; day = t % 31 + 1 }

pub month_in_year : (t : ℕ) → (local_day t).month < 12
month_in_year t = omega arith

abbrev pub dates : Dates
dates = record {
  time = λ s. if is_truthy s && all_digits s then some (read_digits 0 s) else none;
  local = local_day;
  month_lt = month_in_year;
}

abbrev pub month_label : ℕ → String
month_label n = "month"

abbrev pub incident : String → IncidentStatus → String → Incident
incident id status created_at = record {
  id = id;
  title = id;
  description = "down";
  description_json = none;
  visibility_state = none;
  postmortem_enabled = none;
  postmortem_content_json = none;
  status = status;
  impact = minor;
  creator_id = none;
  creator_username = none;
  affected_components = [];
  affected_component_targets = none;
  created_at = created_at;
  updated_at = created_at;
  resolved_at = none;
  updates = none;
}
