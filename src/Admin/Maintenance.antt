-- ===== src/Admin/Maintenance.antt =====
-- apps/web/src/pages/admin/AdminMaintenance.tsx: the form of a maintenance window, what it sends,
-- and the page around the dialog. Reading a text as a time is the run-time's.
pub mod Laws
use Prim.Native.Nat.{ℕ, zero, suc}
use Prim.Native.String.{String, [], ◌∷◌, ◌++◌}
use mathlib.Core.Bool.{true, false}
use mathlib.Core.Option.{Option, none, some}
use mathlib.Core.List
use mathlib.Core.List.{List}
use statora.Prelude.Tests.{or_else, ◌>>=◌, return}
use statora.Prelude.Equality.{String_eq}
use statora.Prelude.Text.{or_text}
use statora.Types.Status.{
  IncidentVisibilityState, published, MaintenanceStatus, scheduled, active, completed, in_progress,
}
use statora.Types.Json.{RichTextDocument}
use statora.Types.Incident.{Maintenance}
use statora.Api.{Reply, answered, failed, get_api_error_message}
use statora.Content.{
  Content, normalize_maintenance_status, get_plain_text_from_rich_text, content_or,
}
use statora.Admin.Requests.{Request, post, patch, delete, Submission, send, refused}
use statora.Admin.Dialog.{Dialog, open_with, refetch, Editor}
use statora.Admin.Selection.{toggled}

unfoldable pub status_labels : MaintenanceStatus → String
status_labels scheduled = "Scheduled"
status_labels in_progress = "In Progress"
status_labels completed = "Completed"
status_labels MaintenanceStatus.draft = "Draft"
status_labels active = "Active"

unfoldable pub visibility_labels : IncidentVisibilityState → String
visibility_labels IncidentVisibilityState.draft = "Draft"
visibility_labels published = "Published"

pub record FormState : Type 0 where
  pub title : String
  pub description : String
  pub description_json : Option RichTextDocument
  pub components : List String
  pub start_time : String
  pub end_time : String
  pub status : MaintenanceStatus
  pub visibility_state : IncidentVisibilityState

abbrev pub default_form : FormState
default_form = record {
  title = "";
  description = "";
  description_json = none;
  components = List.[];
  start_time = "";
  end_time = "";
  status = scheduled;
  visibility_state = published;
}

-- `s.slice(0, n)` on a text of characters that count once
unfoldable pub slice_start : ℕ → String → String
slice_start zero s = []
slice_start (suc n) [] = []
slice_start (suc n) (c ∷ s) = c ∷ slice_start n s

abbrev pub to_datetime_local : String → String
unfolding slice_start
to_datetime_local iso = slice_start 16 iso

abbrev pub form_of : Maintenance → FormState
form_of m = record {
  title = m.title;
  description = m.description;
  description_json = m.description_json;
  components = m.components;
  start_time = to_datetime_local m.start_time;
  end_time = to_datetime_local m.end_time;
  status = normalize_maintenance_status m.status;
  visibility_state = or_else m.visibility_state published;
}

-- the state hooks of the page
pub record MaintenancePage : Type 0 where
  pub dialog : Dialog Maintenance FormState
  pub viewing : Option Maintenance
  pub deleting : Option Maintenance

abbrev pub change_dialog :
    (Dialog Maintenance FormState → Dialog Maintenance FormState)
    → MaintenancePage
    → MaintenancePage
change_dialog f page = record page { dialog = f page.dialog }

unfoldable pub open_create : MaintenancePage → MaintenancePage
unfolding open_with
open_create page = change_dialog (open_with none default_form) page

unfoldable pub open_edit : Maintenance → MaintenancePage → MaintenancePage
unfolding open_with
open_edit m page = change_dialog (open_with (some m) (form_of m)) page

unfoldable pub toggle_component : String → MaintenancePage → MaintenancePage
toggle_component id page =
    change_dialog
      (λ d. record d { form = record d.form { components = toggled id d.form.components } }) page

-- `previewContent`; `none` is a TypeError in the description
unfoldable pub preview_content : FormState → Option Content
unfolding content_or
preview_content form = content_or form.description form.description_json

-- `new Date(s).toISOString()`; `none` is the RangeError of an invalid date
module _ (to_iso_string : String → Option String) where
  -- `none` where building the payload throws
  unfoldable pub payload : FormState → Option FormState
  payload form = do
    start ← to_iso_string form.start_time
    end ← to_iso_string form.end_time
    plain ← get_plain_text_from_rich_text form.description_json
    return (record form {
      start_time = start;
      end_time = end;
      description = or_text plain form.description;
    })

  abbrev request_for : Option Maintenance → FormState → Request FormState
  request_for (some editing) body = patch ("/maintenance/" ++ editing.id) body
  request_for none body = post "/maintenance" body

  unfoldable pub submission : Option Maintenance → FormState → Submission FormState
  unfolding payload
  submission editing form = elim (payload form) [
    | none ↦ refused "Failed to save"
    | some body ↦ send (request_for editing body)
  ]

  abbrev pub editor : Editor Maintenance Maintenance FormState FormState
  unfolding submission
  editor = record {
    blank = default_form;
    kept = some;
    form_of = form_of;
    submission = submission;
    failure_text = λ editing. "Failed to save";
  }

-- `handleDelete` up to its request
unfoldable pub begin_delete : MaintenancePage → MaintenancePage
begin_delete page = elim page.deleting [
  | none ↦ page
  | some m ↦ change_dialog (λ d. record d { saving = true }) page
]

unfoldable pub delete_request : MaintenancePage → Option (Request FormState)
delete_request page = elim page.deleting [
  | none ↦ none
  | some m ↦ some (delete ("/maintenance/" ++ m.id))
]

unfoldable pub finish_delete : Reply {0} Unit → MaintenancePage → MaintenancePage
unfolding refetch
finish_delete (answered _) page = record page {
  deleting = none;
  dialog = record (refetch page.dialog) { saving = false };
}
finish_delete (failed err) page =
    change_dialog
      (λ d. record d {
        alerts = List.◌∷◌ (get_api_error_message err "Failed to delete maintenance") d.alerts;
        saving = false;
      })
      page
