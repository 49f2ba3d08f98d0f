-- ===== src/Types/Service.antt =====
-- Components, their subcomponents and the summary of a category.
use Prim.Native.String.{String}
use mathlib.Core.Option.{Option}
use mathlib.Core.List.{List}
use statora.Types.Status.{ComponentStatus}
use statora.Types.Json.{Decimal}

pub record Component : Type 0 where
  pub id : String
  pub name : String
  pub description : String
  pub status : ComponentStatus
  pub created_at : String
  pub updated_at : String

pub record SubComponent : Type 0 where
  pub id : String
  pub component_id : String
  pub name : String
  pub description : String
  pub status : ComponentStatus

pub record UptimeBar : Type 0 where
  pub date : String
  pub uptime_percent : Decimal
  pub status : ComponentStatus

pub record CategoryServiceStatus : Type 0 where
  pub id : String
  pub name : String
  pub description : String
  pub status : ComponentStatus
  pub updated_at : String
  pub uptime30d : Option Decimal
  pub uptime_history : List UptimeBar
