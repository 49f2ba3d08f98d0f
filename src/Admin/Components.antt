-- ===== src/Admin/Components.antt =====
-- apps/web/src/pages/admin/AdminComponents.tsx: the form of a component and what it sends.
use Prim.Native.String.{String, ◌++◌}
use mathlib.Core.Bool.{Bool}
use mathlib.Core.Option.{Option, none, some}
use statora.Types.Status.{ComponentStatus, operational}
use statora.Types.Service.{Component}
use statora.Admin.Requests.{Request, post, patch, delete, Submission, send, confirmed}
use statora.Admin.Dialog.{Dialog, open_with, Editor}

pub record FormState : Type 0 where
  pub name : String
  pub description : String
  pub status : ComponentStatus

abbrev pub default_form : FormState
default_form = record { name = ""; description = ""; status = operational }

abbrev pub form_of : Component → FormState
form_of c = record { name = c.name; description = c.description; status = c.status }

unfoldable pub submission : Option Component → FormState → Submission FormState
submission (some editing) form = send (patch ("/components/" ++ editing.id) form)
submission none form = send (post "/components" form)

unfoldable pub editor : Editor Component Component FormState FormState
unfolding submission
editor = record {
  blank = default_form;
  kept = some;
  form_of = form_of;
  submission = submission;
  failure_text = λ editing. "Failed to save";
}

unfoldable pub open_create : Dialog Component FormState → Dialog Component FormState
unfolding open_with
open_create page = open_with none default_form page

unfoldable pub open_edit : Component → Dialog Component FormState → Dialog Component FormState
unfolding open_with
open_edit c page = open_with (some c) (form_of c) page

-- with the answer to `confirm`
unfoldable pub delete_request : Bool → Component → Option (Request FormState)
delete_request answer c = confirmed answer (delete ("/components/" ++ c.id))
