-- ===== src/Admin/Monitors.antt =====
-- apps/web/src/pages/admin/AdminMonitors.tsx: the form of a monitor, its fields that depend on each
-- other, and the page around the dialog.
pub mod Form
pub mod Laws
use Prim.Native.Nat.{ℕ}
use Prim.Native.String.{String, ◌++◌}
use mathlib.Core.Bool.{Bool, true, false, ◌||◌}
use mathlib.Core.Option
use mathlib.Core.Option.{Option, none, some}
use mathlib.Core.List.{List, [], ◌∷◌, map}
use statora.Prelude.Tests.{if◌then◌else◌, or_else}
use statora.Prelude.Equality.{◌==◌, String_eq}
use statora.Prelude.Decimal.{print}
use statora.Prelude.Lists.{find}
use statora.Prelude.Reading.{Reading, join_commas, read_numbers}
use statora.Prelude.Text.{is_truthy, or_text}
use statora.Types.Status.{MonitorType, ssl}
use statora.Types.Service.{Component, SubComponent}
use statora.Types.Json.{Json}
use statora.Types.Monitor.{Monitor, Advanced}
use statora.Api.{Reply, answered, failed, get_api_error_message}
use statora.Admin.Requests.{Request, post, put, delete, Submission, send, confirmed}
use statora.Admin.Dialog.{Dialog, open_with, close_modal, finish_save, Editor}
use statora.Admin.Monitors.Form.{FormState, default_form, needs_thresholds}

unfoldable pub monitor_logs_path : String → String
monitor_logs_path id = "/admin/monitors/" ++ id ++ "/logs"

-- `Boolean(m.monitoring?.advanced?.…)`, by the field
abbrev flag : (Advanced → Option Bool) → Monitor → Bool
flag field m = or_else (Option.bind m.advanced field) false

-- `(m.sslThresholds && m.sslThresholds.length > 0) ? m.sslThresholds.join(',') : '30,14,7'`
abbrev pub thresholds_text : Option (List ℕ) → String
thresholds_text none = "30,14,7"
thresholds_text (some []) = "30,14,7"
thresholds_text (some (n ∷ ns)) = join_commas (map print (n ∷ ns))

abbrev pub form_of : Monitor → FormState
form_of m = record {
  name = m.name;
  type = m.type;
  target = m.target;
  ssl_thresholds = thresholds_text m.ssl_thresholds;
  domain_expiry = flag (λ a. a.domain_expiry) m;
  cert_expiry = flag (λ a. a.cert_expiry) m;
  ignore_tls_error = flag (λ a. a.ignore_tls_error) m;
  interval_seconds = m.interval_seconds;
  timeout_seconds = m.timeout_seconds;
  component_id = or_text m.component_id "";
  sub_component_id = or_else m.sub_component_id "";
}

-- The fields of the form, with its thresholds as numbers, `none` for `undefined`, and
-- `monitoring.advanced`.
pub record Payload : Type 0 where
  pub name : String
  pub type : MonitorType
  pub target : String
  pub ssl_thresholds : Option (List ℕ)
  pub domain_expiry : Bool
  pub cert_expiry : Bool
  pub ignore_tls_error : Bool
  pub interval_seconds : Reading
  pub timeout_seconds : Reading
  pub component_id : String
  pub sub_component_id : String
  pub advanced : Advanced

unfoldable pub payload : FormState → Payload
unfolding needs_thresholds read_numbers
payload form = record {
  name = form.name;
  type = form.type;
  target = form.target;
  ssl_thresholds = if needs_thresholds form then some (read_numbers form.ssl_thresholds) else none;
  domain_expiry = form.domain_expiry;
  cert_expiry = form.cert_expiry;
  ignore_tls_error = form.ignore_tls_error;
  interval_seconds = form.interval_seconds;
  timeout_seconds = form.timeout_seconds;
  component_id = form.component_id;
  sub_component_id = form.sub_component_id;
  advanced = record {
    domain_expiry = some form.domain_expiry;
    cert_expiry = some form.cert_expiry;
    ignore_tls_error = some form.ignore_tls_error;
  };
}

-- `m.id || null`
abbrev pub id_or_null : String → Option String
id_or_null id = if is_truthy id then some id else none

-- an empty id counts as none
unfoldable pub submission : Option String → FormState → Submission Payload
unfolding payload
submission none form = send (post "/monitors" (payload form))
submission (some id) form =
    if is_truthy id
    then send (put ("/monitors/" ++ id) (payload form))
    else send (post "/monitors" (payload form))

unfoldable pub failure_text : Option String → String
failure_text none = "Failed to create monitor"
failure_text (some id) =
    if is_truthy id then "Failed to update monitor" else "Failed to create monitor"

-- `(components || [])[0]?.id || ''`
abbrev pub first_id : List Component → String
first_id [] = ""
first_id (c ∷ cs) = or_text c.id ""

abbrev pub blank_form : List Component → FormState
blank_form components = record default_form {
  component_id = first_id components;
  sub_component_id = "";
}

abbrev pub editor : List Component → Editor Monitor String FormState Payload
unfolding submission failure_text
editor components = record {
  blank = blank_form components;
  kept = λ m. id_or_null m.id;
  form_of = form_of;
  submission = submission;
  failure_text = failure_text;
}

-- the state hooks of the page; the result of a test is the body of the answer
pub record MonitorsPage : Type 0 where
  pub dialog : Dialog String FormState
  pub testing : Bool
  pub test_result : Option Json

unfoldable pub open_create : List Component → MonitorsPage → MonitorsPage
unfolding open_with
open_create components page = record page {
  dialog = open_with none (blank_form components) page.dialog;
  test_result = none;
}

unfoldable pub open_edit : Monitor → MonitorsPage → MonitorsPage
unfolding open_with
open_edit m page = record page {
  dialog = open_with (id_or_null m.id) (form_of m) page.dialog;
  test_result = none;
}

unfoldable pub close : MonitorsPage → MonitorsPage
unfolding close_modal
close page = record page { dialog = close_modal page.dialog; test_result = none }

unfoldable pub begin_test : MonitorsPage → MonitorsPage
begin_test page = record page {
  testing = true;
  test_result = none;
  dialog = record page.dialog { error = "" };
}

unfoldable pub test_request : MonitorsPage → Request Payload
unfolding payload
test_request page = post "/monitors/test" (payload page.dialog.form)

unfoldable pub finish_test : Reply Json → MonitorsPage → MonitorsPage
finish_test (answered result) page = record page { test_result = some result; testing = false }
finish_test (failed err) page = record page {
  dialog = record page.dialog { error = get_api_error_message err "Failed to test monitor" };
  testing = false;
}

-- `handleSave` after its request; `editing_id` is that of the page the handler was called on, and
-- the success closes the modal of this page, which clears the result of a test
unfoldable pub finish_monitor_save : Option String → Reply {0} Unit → MonitorsPage → MonitorsPage
unfolding finish_save failure_text
finish_monitor_save editing_id (answered u) page = record page {
  dialog = finish_save (failure_text editing_id) (answered u) page.dialog;
  test_result = none;
}
finish_monitor_save editing_id (failed err) page = record page {
  dialog = finish_save {A = Unit {0}} (failure_text editing_id) (failed err) page.dialog;
}

unfoldable pub delete_request : Bool → Monitor → Option (Request Payload)
delete_request answer m = confirmed answer (delete ("/monitors/" ++ m.id))

abbrev part_text : String → Option SubComponent → Option Component → String
part_text id (some part) (some component) =
    part.name ++ " (Subcomponent of " ++ component.name ++ ")"
part_text id (some part) none = part.name ++ " (SubComponent)"
part_text id none component = "SubComponent: " ++ id

abbrev whole_text : String → Option Component → String
whole_text id none = id
whole_text id (some component) = or_text component.name id

unfoldable pub get_component_name_and_subcomponent_text :
    List Component → List SubComponent → Monitor → String
get_component_name_and_subcomponent_text components subcomponents monitor =
    let component = find (λ c. c.id == monitor.component_id) components in
    let part = or_else monitor.sub_component_id "" in
    if is_truthy part
    then part_text part (find (λ s. s.id == part) subcomponents) component
    else if is_truthy monitor.component_id
    then whole_text monitor.component_id component
    else "Unassigned"
