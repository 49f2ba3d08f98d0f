-- ===== src/Admin/Activate.antt =====
-- apps/web/src/pages/admin/AdminActivate.tsx: an invited user chooses a name and a password.
use Prim.Native.String.{String}
use mathlib.Core.Path.{◌≡◌, refl}
use mathlib.Core.Logic.{inl, inr}
use mathlib.Core.Bool.{Bool, true, false, not, ◌&&◌}
use mathlib.Core.Option.{Option, none, some}
use statora.Prelude.Tests.{if◌then◌else◌, Bool-cases}
use statora.Prelude.Equality.{◌==◌, String_eq}
use statora.Prelude.Text.{is_truthy}
use statora.Api.{Reply, answered, failed, get_api_error_message}
use statora.Admin.Requests.{post, Submission, send, refused}

-- the state hooks of the page, with the token of its address and the path last handed to `navigate`
pub record ActivatePage : Type 0 where
  pub token : String
  pub username : String
  pub password : String
  pub confirm_password : String
  pub submitting : Bool
  pub error : String
  pub navigated : Option String

pub record ActivateBody : Type 0 where
  pub token : String
  pub username : String
  pub password : String

-- `searchParams.get('token') || ''`
abbrev pub token_of : Option String → String
token_of none = ""
token_of (some token) = token

unfoldable pub submission : ActivatePage → Submission ActivateBody
submission page =
    if not (is_truthy page.token)
    then refused "Activation token is missing."
    else if not (page.password == page.confirm_password)
    then refused "Passwords do not match."
    else send (
        post "/users/invitations/activate"
          (record { token = page.token; username = page.username; password = page.password }))

abbrev begun : Submission ActivateBody → ActivatePage → ActivatePage
begun (refused message) page = record page { error = message }
begun (send request) page = record page { error = ""; submitting = true }

-- `onSubmit` up to its request
unfoldable pub begin_submit : ActivatePage → ActivatePage
unfolding submission
begin_submit page = begun (submission page) page

unfoldable pub finish_submit : Reply {0} Unit → ActivatePage → ActivatePage
finish_submit (answered _) page = record page {
  navigated = some "/admin/login";
  submitting = false;
}
finish_submit (failed err) page = record page {
  error = get_api_error_message err "Activation failed. Please try again.";
  submitting = false;
}

-- whether an activation is sent
abbrev pub is_complete : ActivatePage → Bool
is_complete page = is_truthy page.token && (page.password == page.confirm_password)

-- A submitted form is sent exactly if there is a token and the password was repeated; then the page
-- waits without an error, and otherwise it waits for nothing and shows an error.
pub begin_submit_complete :
    (page : ActivatePage)
    → page.submitting ≡ false
    → let next = begin_submit page in
      (next.submitting ≡ is_complete page) × (is_truthy next.error ≡ not (is_complete page))
unfolding begin_submit submission
begin_submit_complete page idle = elim (Bool-cases (is_truthy page.token)) [
  | inl t ↦ elim (Bool-cases (page.password == page.confirm_password)) [
    | inl s ↦ rw (t, s) (refl, refl)
    | inr d ↦ rw (t, d) (idle, refl)
  ]
  | inr missing ↦ rw missing (idle, refl)
]
