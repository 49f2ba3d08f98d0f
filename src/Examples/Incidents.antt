-- ===== src/Examples/Incidents.antt =====
-- The groupings of incidents at three incidents.
use Prim.Native.Nat.{ℕ, ◌-◌}
use mathlib.Core.Option.{some}
use mathlib.Core.List.{List, [], ◌∷◌, Perm}
use statora.Prelude.Tests.{is_some}
use statora.Prelude.Lists.{filter}
use statora.Prelude.Perms.{join}
use statora.Types.Status.{investigating, resolved, monitoring}
use statora.Types.Incident.{Incident}
use statora.Utils.Dates.{LocalDate}
use statora.Utils.RelativeTime.{format_relative_time, IsElapsed, format_relative_time-IsElapsed}
use statora.Utils.Grouping.{group_incidents_by_recent_days, group_incidents_by_year_quarter_month}
use statora.Utils.Grouping.Days.{AreDays, group_incidents_by_recent_days-AreDays}
use statora.Utils.Grouping.ByYear.{year_incidents, group_incidents_by_year_quarter_month-perm}
use statora.Examples.Data.{dates, month_label, incident}
use statora.Prelude.Perms.{join}
use statora.Utils.Grouping.{group_incidents_by_status}
use statora.Utils.Grouping.ByStatus.{group_incidents_by_status-perm}

abbrev three_incidents : List Incident
three_incidents =
    incident "i1" investigating "9000"
    ∷ incident "i2" resolved "9010"
    ∷ incident "i3" monitoring "9000"
    ∷ []

abbrev days_ago : ℕ → LocalDate
days_ago n = dates.local (9010 - n)

format_relative_time-IsElapsed_example :
    IsElapsed 7200000 60000 (format_relative_time 7200000 (some 60000))
format_relative_time-IsElapsed_example = format_relative_time-IsElapsed 7200000 60000

group_incidents_by_recent_days-AreDays_example :
    AreDays dates days_ago three_incidents 0 2
      (group_incidents_by_recent_days dates days_ago three_incidents 2)
group_incidents_by_recent_days-AreDays_example =
    group_incidents_by_recent_days-AreDays dates days_ago three_incidents 2

group_incidents_by_year_quarter_month-perm_example :
    Perm
      (join year_incidents
        (group_incidents_by_year_quarter_month dates month_label three_incidents))
      (filter (λ i. is_some (dates.time i.created_at)) three_incidents)
group_incidents_by_year_quarter_month-perm_example =
    group_incidents_by_year_quarter_month-perm dates month_label three_incidents

group_incidents_by_status-perm_example :
    Perm (join (λ g. g.incidents) (group_incidents_by_status dates three_incidents)) three_incidents
group_incidents_by_status-perm_example = group_incidents_by_status-perm dates three_incidents
