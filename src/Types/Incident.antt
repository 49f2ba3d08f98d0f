-- ===== src/Types/Incident.antt =====
-- Incidents, their updates and maintenance windows.
use Prim.Native.String.{String}
use mathlib.Core.Bool.{Bool}
use mathlib.Core.Option.{Option}
use mathlib.Core.List.{List}
use statora.Types.Status.{
  ComponentStatus, IncidentStatus, IncidentImpact, IncidentVisibilityState, MaintenanceStatus,
}
use statora.Types.Json.{Decimal, RichTextDocument}
use statora.Types.Service.{Component, SubComponent, CategoryServiceStatus}

pub record IncidentAffectedComponentTarget : Type 0 where
  pub component : Component
  pub sub_components : Option (List SubComponent)

pub record IncidentUpdate : Type 0 where
  pub id : String
  pub incident_id : String
  pub message : String
  pub message_json : Option RichTextDocument
  pub status : IncidentStatus
  pub created_at : String

pub record Incident : Type 0 where
  pub id : String
  pub title : String
  pub description : String
  pub description_json : Option RichTextDocument
  pub visibility_state : Option IncidentVisibilityState
  pub postmortem_enabled : Option Bool
  pub postmortem_content_json : Option RichTextDocument
  pub status : IncidentStatus
  pub impact : IncidentImpact
  pub creator_id : Option String
  pub creator_username : Option String
  pub affected_components : List Component
  pub affected_component_targets : Option (List IncidentAffectedComponentTarget)
  pub created_at : String
  pub updated_at : String
  pub resolved_at : Option String
  pub updates : Option (List IncidentUpdate)

pub record Maintenance : Type 0 where
  pub id : String
  pub title : String
  pub description : String
  pub description_json : Option RichTextDocument
  pub creator_id : Option String
  pub creator_username : Option String
  pub components : List String
  pub start_time : String
  pub end_time : String
  pub status : MaintenanceStatus
  pub visibility_state : Option IncidentVisibilityState

pub record CategorySummary : Type 0 where
  pub prefix : String
  pub name : String
  pub description : String
  pub aggregate_status : ComponentStatus
  pub has_monitoring : Bool
  pub uptime30d : Option Decimal
  pub services : List CategoryServiceStatus
  pub incidents : List Incident
