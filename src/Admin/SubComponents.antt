-- ===== src/Admin/SubComponents.antt =====
-- apps/web/src/pages/admin/AdminSubComponents.tsx: the form of a subcomponent, which needs a parent.
pub mod Laws
use Prim.Native.String.{String, ◌++◌}
use mathlib.Core.Bool.{Bool, true, false, ◌&&◌}
use mathlib.Core.Option.{Option, none, some}
use mathlib.Core.List.{List, [], ◌∷◌}
use statora.Prelude.Tests.{if◌then◌else◌}
use statora.Prelude.Equality.{◌==◌, String_eq}
use statora.Prelude.Lists.{find}
use statora.Prelude.Text.{is_truthy, or_text}
use statora.Types.Status.{ComponentStatus, operational, ComponentStatus_eq}
use statora.Types.Service.{Component, SubComponent}
use statora.Admin.Requests.{Request, post, patch, delete, Submission, send, refused, confirmed}
use statora.Admin.Dialog.{Dialog, open_with, Editor}

pub record FormState : Type 0 where
  pub component_id : String
  pub name : String
  pub description : String
  pub status : ComponentStatus

abbrev pub default_form : FormState
default_form = record { component_id = ""; name = ""; description = ""; status = operational }

-- `components?.[0]?.id || ''`, where components that are not there yet are no components
abbrev pub first_id : List Component → String
first_id [] = ""
first_id (c ∷ cs) = or_text c.id ""

-- `Boolean(components?.length)`
abbrev pub has_components : List Component → Bool
has_components [] = false
has_components (c ∷ cs) = true

abbrev pub form_of : SubComponent → FormState
form_of s = record {
  component_id = s.component_id;
  name = s.name;
  description = s.description;
  status = s.status;
}

-- the part of the test after `Boolean(editing)`
abbrev same_form : SubComponent → FormState → Bool
same_form editing form =
    (editing.component_id == form.component_id)
    && (editing.name == form.name)
    && (or_text editing.description "" == form.description)
    && (editing.status == form.status)

unfoldable pub is_unchanged : Option SubComponent → FormState → Bool
is_unchanged none form = false
is_unchanged (some editing) form = same_form editing form

unfoldable pub submission : Option SubComponent → FormState → Submission FormState
submission editing form =
    if is_truthy form.component_id
    then elim editing [
      | some s ↦ send (patch ("/subcomponents/" ++ s.id) form)
      | none ↦ send (post "/subcomponents" form)
    ]
    else refused "Parent component is required"

abbrev pub editor : List Component → Editor SubComponent SubComponent FormState FormState
unfolding submission
editor components = record {
  blank = record default_form { component_id = first_id components };
  kept = some;
  form_of = form_of;
  submission = submission;
  failure_text = λ editing. "Failed to save";
}

unfoldable pub open_create :
    List Component → Dialog SubComponent FormState → Dialog SubComponent FormState
unfolding open_with
open_create components page =
    open_with none (record default_form { component_id = first_id components }) page

unfoldable pub open_edit :
    SubComponent → Dialog SubComponent FormState → Dialog SubComponent FormState
unfolding open_with
open_edit s page = open_with (some s) (form_of s) page

unfoldable pub delete_request : Bool → SubComponent → Option (Request FormState)
delete_request answer s = confirmed answer (delete ("/subcomponents/" ++ s.id))

abbrev name_or : Option Component → String → String
name_or none id = id
name_or (some c) id = or_text c.name id

unfoldable pub get_component_name : List Component → String → String
get_component_name components id = name_or (find (λ c. c.id == id) components) id
