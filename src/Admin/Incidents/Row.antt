-- ===== src/Admin/Incidents/Row.antt =====
-- apps/web/src/pages/admin/AdminIncidents.tsx, `IncidentRow`: the updates of one incident.
use Prim.Native.Nat.{ℕ, ◌+◌}
use Prim.Native.String.{String, ◌++◌}
use mathlib.Core.Path.{◌≡◌, refl}
use mathlib.Core.Bool.{Bool, false, not, ◌&&◌}
use mathlib.Core.Option.{Option, none, some}
use mathlib.Core.List.{List, ◌∷◌}
use statora.Prelude.Tests.{if◌then◌else◌}
use statora.Prelude.Text.{or_text}
use statora.Types.Status.{IncidentStatus}
use statora.Types.Json.{RichTextDocument}
use statora.Types.Incident.{IncidentUpdate}
use statora.Api.{Reply, answered, failed}
use statora.Content.{get_plain_text_from_rich_text}
use statora.Admin.Requests.{post, Submission, send, refused}
use statora.Admin.Dialog.Laws.{is_failed}

-- the state hooks of the row, how often it has called `onRefetch`, and the texts of `alert`
pub record IncidentRow : Type 0 where
  pub expanded : Bool
  pub show_update_modal : Bool
  pub update_msg : String
  pub update_msg_json : Option RichTextDocument
  pub update_status : IncidentStatus
  pub updates : Option (List IncidentUpdate)
  pub saving : Bool
  pub refetches : ℕ
  pub alerts : List String

-- A failure rejects the promise of the handler, and nothing is set.
abbrev received : Reply (List IncidentUpdate) → IncidentRow → IncidentRow
received (answered updates) row = record row { updates = some updates; expanded = not row.expanded }
received (failed err) row = row

-- with the reply to the request that is sent if the row is not expanded
unfoldable pub load_updates : Reply (List IncidentUpdate) → IncidentRow → IncidentRow
load_updates reply row =
    if row.expanded then record row { expanded = not row.expanded } else received reply row

pub record UpdateBody : Type 0 where
  pub message : String
  pub message_json : Option RichTextDocument
  pub status : IncidentStatus

unfoldable pub update_submission : String → IncidentRow → Submission UpdateBody
update_submission incident_id row = elim (get_plain_text_from_rich_text row.update_msg_json) [
  | none ↦ refused "Failed to add update"
  | some plain ↦ send (
      post ("/incidents/" ++ incident_id ++ "/update") (record {
        message = or_text plain row.update_msg;
        message_json = row.update_msg_json;
        status = row.update_status;
      }))
]

abbrev fail_update : IncidentRow → IncidentRow
fail_update row = record row { alerts = "Failed to add update" ∷ row.alerts; saving = false }

abbrev reload : Reply (List IncidentUpdate) → IncidentRow → IncidentRow
reload (answered updates) row = record row { updates = some updates; saving = false }
reload (failed err) row = fail_update row

-- after the reply to the post, with the reply to the request for the updates that follows
unfoldable pub finish_update :
    Reply {0} Unit → Reply (List IncidentUpdate) → IncidentRow → IncidentRow
finish_update (answered _) listed row = reload listed (record row {
  show_update_modal = false;
  update_msg = "";
  update_msg_json = none;
  refetches = row.refetches + 1;
})
finish_update (failed err) listed row = fail_update row

-- The end of an update: the row is ready again; the text is cleared and the list fetched anew
-- exactly if the update was accepted, and an alert is shown unless it was accepted and the updates
-- could be read again.
pub finish_update-settles :
    (posted : Reply {0} Unit) (listed : Reply (List IncidentUpdate)) (row : IncidentRow)
    → let next = finish_update posted listed row in
      let lost = is_failed posted in
      (next.saving ≡ false)
      × (next.update_msg ≡ (if lost then row.update_msg else ""))
      × (next.refetches ≡ (if lost then row.refetches else row.refetches + 1))
      × (next.alerts ≡ (
          if not lost && not (is_failed listed)
          then row.alerts
          else "Failed to add update" ∷ row.alerts))
unfolding finish_update
finish_update-settles (answered _) (answered us) row = (refl, refl, refl, refl)
finish_update-settles (answered _) (failed err) row = (refl, refl, refl, refl)
finish_update-settles (failed err) listed row = (refl, refl, refl, refl)
