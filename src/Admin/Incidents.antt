-- ===== src/Admin/Incidents.antt =====
-- apps/web/src/pages/admin/AdminIncidents.tsx: the form of an incident with the components and
-- subcomponents it affects, and the page around the dialog.
pub mod Targets
pub mod Laws
pub mod Row
use Prim.Native.Nat.{ℕ, zero, suc}
use Prim.Native.String.{String, ◌++◌}
use mathlib.Core.Bool.{Bool, true, false, not}
use mathlib.Core.Option
use mathlib.Core.Option.{Option, none, some}
use mathlib.Core.List
use mathlib.Core.List.{List, [], ◌∷◌, map}
use statora.Prelude.Tests.{if◌then◌else◌, or_else}
use statora.Prelude.Equality.{◌==◌, String_eq}
use statora.Prelude.Lists.{filter, any, find}
use statora.Prelude.Text.{is_truthy, or_text}
use statora.Types.Status.{IncidentStatus, investigating, is_resolved, IncidentImpact, minor}
use statora.Types.Json.{RichTextDocument}
use statora.Types.Service.{Component, SubComponent}
use statora.Types.Incident.{Incident, IncidentAffectedComponentTarget}
use statora.Api.{Reply, answered, failed, get_api_error_message}
use statora.Content.{Content, get_plain_text_from_rich_text, content_or}
use statora.Admin.Requests.{Request, post, patch, post_empty, delete, Submission, send, refused}
use statora.Admin.Dialog.{Dialog, open_with, refetch, Editor}
use statora.Admin.Selection.{toggled}

pub record Target : Type 0 where
  pub component_id : String
  pub sub_component_ids : List String

pub record IncidentForm : Type 0 where
  pub title : String
  pub description : String
  pub description_json : Option RichTextDocument
  pub status : IncidentStatus
  pub impact : IncidentImpact
  pub affected_component_targets : List Target

abbrev pub default_form : IncidentForm
default_form = record {
  title = "";
  description = "";
  description_json = none;
  status = investigating;
  impact = minor;
  affected_component_targets = [];
}

abbrev pub target_of : IncidentAffectedComponentTarget → Target
target_of t = record {
  component_id = t.component.id;
  sub_component_ids = or_else (Option.map (λ subs. map (λ s. s.id) subs) t.sub_components) [];
}

abbrev pub bare_target : Component → Target
bare_target c = record { component_id = c.id; sub_component_ids = [] }

abbrev pub form_of : Incident → IncidentForm
form_of incident = record {
  title = incident.title;
  description = incident.description;
  description_json = incident.description_json;
  status = incident.status;
  impact = incident.impact;
  affected_component_targets =
      or_else (Option.map (λ ts. map target_of ts) incident.affected_component_targets)
        (map bare_target incident.affected_components);
}

-- `t.componentId === componentId`
abbrev pub is_for : String → Target → Bool
is_for component_id t = t.component_id == component_id

unfoldable pub toggle_target : String → List Target → List Target
toggle_target component_id targets =
    if any (is_for component_id) targets
    then filter (λ t. not (is_for component_id t)) targets
    else List.◌++◌ targets (record { component_id = component_id; sub_component_ids = [] } ∷ [])

-- `xs.findIndex(p)`, `none` for -1
abbrev pub find_index {ℓ} : {A : Type ℓ} → (A → Bool) → List A → Option ℕ
find_index p [] = none
find_index p (x ∷ xs) =
    let rest = find_index p xs in if p x then some zero else Option.map (λ i. suc i) rest

-- a copy of the list with `f` applied at the index
abbrev pub change_at {ℓ} : {A : Type ℓ} → ℕ → (A → A) → List A → List A
change_at i f [] = []
change_at zero f (x ∷ xs) = f x ∷ xs
change_at (suc i) f (x ∷ xs) = x ∷ change_at i f xs

unfoldable pub toggle_sub_target : String → String → List Target → List Target
unfolding toggled
toggle_sub_target component_id sub_component_id targets =
    elim (find_index (is_for component_id) targets) [
      | none ↦
          List.◌++◌ targets
            (record { component_id = component_id; sub_component_ids = sub_component_id ∷ [] } ∷ [])
      | some index ↦
          change_at index
            (λ target. record target {
              sub_component_ids = toggled sub_component_id target.sub_component_ids;
            })
            targets
    ]

unfoldable pub get_target : String → IncidentForm → Option Target
get_target component_id form = find (is_for component_id) form.affected_component_targets

-- `none` where building the payload throws, for the description
unfoldable pub payload : IncidentForm → Option IncidentForm
payload form =
    Option.map (λ plain. record form { description = or_text plain form.description })
      (get_plain_text_from_rich_text form.description_json)

-- an empty id counts as none
abbrev request_for : Option String → IncidentForm → Request IncidentForm
request_for none body = post "/incidents" body
request_for (some id) body =
    if is_truthy id then patch ("/incidents/" ++ id) body else post "/incidents" body

unfoldable pub submission : Option String → IncidentForm → Submission IncidentForm
unfolding payload
submission editing_id form = elim (payload form) [
  | none ↦ refused "Failed to save incident"
  | some body ↦ send (request_for editing_id body)
]

abbrev pub editor : Editor Incident String IncidentForm IncidentForm
unfolding submission
editor = record {
  blank = default_form;
  kept = λ incident. some incident.id;
  form_of = form_of;
  submission = submission;
  failure_text = λ editing_id. "Failed to save incident";
}

pub data IncidentFilter : Type 0 where
  all active resolved : IncidentFilter

unfoldable pub passes : IncidentFilter → Incident → Bool
passes all i = true
passes active i = not (is_resolved i.status)
passes resolved i = is_resolved i.status

unfoldable pub filtered : IncidentFilter → List Incident → List Incident
unfolding passes
filtered shown incidents = filter (passes shown) incidents

-- the state hooks of the page
pub record IncidentsPage : Type 0 where
  pub dialog : Dialog String IncidentForm
  pub shown : IncidentFilter
  pub viewing : Option Incident
  pub deleting : Option Incident
  pub resolving : Option Incident

abbrev pub change_dialog :
    (Dialog String IncidentForm → Dialog String IncidentForm) → IncidentsPage → IncidentsPage
change_dialog f page = record page { dialog = f page.dialog }

unfoldable pub open_create : IncidentsPage → IncidentsPage
unfolding open_with
open_create page = change_dialog (open_with none default_form) page

unfoldable pub open_edit : Incident → IncidentsPage → IncidentsPage
unfolding open_with
open_edit incident page = change_dialog (open_with (some incident.id) (form_of incident)) page

abbrev change_targets : (List Target → List Target) → IncidentsPage → IncidentsPage
change_targets f page =
    change_dialog
      (λ d. record d {
        form = record d.form { affected_component_targets = f d.form.affected_component_targets };
      })
      page

unfoldable pub toggle_component : String → IncidentsPage → IncidentsPage
unfolding toggle_target
toggle_component component_id page = change_targets (toggle_target component_id) page

unfoldable pub toggle_sub_component : String → String → IncidentsPage → IncidentsPage
unfolding toggle_sub_target
toggle_sub_component component_id sub_component_id page =
    change_targets (toggle_sub_target component_id sub_component_id) page

unfoldable pub preview_content : IncidentForm → Option Content
unfolding content_or
preview_content form = content_or form.description form.description_json

unfoldable pub delete_request : IncidentsPage → Option (Request IncidentForm)
delete_request page = Option.map (λ i. delete ("/incidents/" ++ i.id)) page.deleting

-- `alert` shows the error of the page that the handler was called on, not the one just set
unfoldable pub finish_delete : String → Reply {0} Unit → IncidentsPage → IncidentsPage
unfolding refetch
finish_delete error_then (answered _) page = record page {
  deleting = none;
  dialog = record (refetch page.dialog) { saving = false };
}
finish_delete error_then (failed err) page =
    change_dialog
      (λ d. record d {
        error = get_api_error_message err "Failed to delete incident";
        alerts = or_text error_then "Failed to delete incident" ∷ d.alerts;
        saving = false;
      })
      page

unfoldable pub resolve_request : IncidentsPage → Option (Request IncidentForm)
resolve_request page =
    Option.map (λ i. post_empty ("/incidents/" ++ i.id ++ "/resolve")) page.resolving

unfoldable pub finish_resolve : Reply {0} Unit → IncidentsPage → IncidentsPage
unfolding refetch
finish_resolve (answered _) page = record page {
  resolving = none;
  dialog = record (refetch page.dialog) { saving = false };
}
finish_resolve (failed err) page =
    change_dialog
      (λ d. record d {
        alerts = get_api_error_message err "Failed to resolve incident" ∷ d.alerts;
        saving = false;
      })
      page
