-- ===== src/Utils/Labels.antt =====
-- The label and colour tables at the head of lib/utils.ts, and the two lookups in them.
use Prim.Native.String.{String}
use statora.Types.Status.{
  ComponentStatus, operational, degraded_performance, partial_outage, major_outage, maintenance,
  IncidentStatus, investigating, identified, monitoring, resolved, IncidentImpact, no_impact, minor,
  major, critical,
}

unfoldable pub status_labels : ComponentStatus → String
status_labels operational = "No known issues"
status_labels degraded_performance = "Degraded Performance"
status_labels partial_outage = "Partial Outage"
status_labels major_outage = "Major Outage"
status_labels maintenance = "Under Maintenance"

unfoldable pub incident_status_labels : IncidentStatus → String
incident_status_labels investigating = "Investigating"
incident_status_labels identified = "Identified"
incident_status_labels monitoring = "Monitoring"
incident_status_labels resolved = "Resolved"

unfoldable pub incident_impact_labels : IncidentImpact → String
incident_impact_labels no_impact = "None"
incident_impact_labels minor = "Minor"
incident_impact_labels major = "Major"
incident_impact_labels critical = "Critical"

-- every status has its label, so the `|| 'Unknown Status'` is never reached
unfoldable pub get_overall_status_label : ComponentStatus → String
get_overall_status_label operational = "All Systems Operational"
get_overall_status_label degraded_performance = "Degraded System Performance"
get_overall_status_label partial_outage = "Partial System Outage"
get_overall_status_label major_outage = "Major System Outage"
get_overall_status_label maintenance = "System Under Maintenance"

unfoldable pub get_status_illustration : ComponentStatus → String
get_status_illustration operational = "/illustrations/operational.svg"
get_status_illustration degraded_performance = "/illustrations/degraded.svg"
get_status_illustration partial_outage = "/illustrations/partial-outage.svg"
get_status_illustration major_outage = "/illustrations/major-outage.svg"
get_status_illustration maintenance = "/illustrations/maintenance.svg"
