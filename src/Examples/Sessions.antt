-- ===== src/Examples/Sessions.antt =====
-- The session, the guards, the login and the profile at concrete users and answers.
use Prim.Native.Nat.{ℕ, ◌≤◌}
use Prim.Native.String.{String}
use mathlib.Core.Path.{◌≡◌, refl}
use mathlib.Core.Bool.{true, false}
use mathlib.Core.Option.{Option, none, some}
use mathlib.Core.List
use statora.Prelude.Tests.{if◌then◌else◌, is_some}
use statora.Prelude.Equality.{String_eq}
use statora.Prelude.Text.{is_truthy}
use statora.Types.Status.{UserRole, admin}
use statora.Types.User.{LoginResponse, MfaVerifyResponse}
use statora.Auth.{
  get_stored_profile, is_authenticated, truthy_flag, get_stored_token, is_mfa_verified,
}
use statora.Admin.Selection.{includes}
use statora.Admin.Layout.Effects.{session_keys}
use statora.Auth.Storage.{get_item}
use statora.Api.{
  Failure, axios_error, answered, RequestConfig, Browser, get_api_error_status, intercept_request,
  intercept_failure,
}
use statora.Api.Laws.{intercept_failure-unauthorized}
use statora.App.{
  read_stored_role, components, incidents, members, components_page, incidents_page, Protection,
  route, follow,
}
use statora.App.Guards.{IsVerifiedSession, route-IsVerifiedSession, route-admin}
use statora.App.Redirects.{follow-is_some}
use statora.Login.{
  LoginPage, opened, submit, submitted, start, follow as step_on, begin_submit, finish_submit,
}
use statora.Login.Laws.{IsConsistent, reachable-IsConsistent, finish_submit-session}
use statora.Profile.Page.{idle, ProfilePage, FormState, ok, thrown, done, UpdateRequest, Server}
use statora.Profile.{
  utf16_length, plan_update, handle_mfa_setup, handle_mfa_verify, handle_mfa_disable,
}
use statora.Profile.Laws.{is_pending, mfa_handlers_settle, plan_update-passwords}
use statora.Examples.Codecs.{profile_codec}
use statora.Examples.Data.{empty_storage, ann, ann_profile, signed_in_storage}

abbrev browser : Browser
browser = record { storage = signed_in_storage; pathname = "/admin/users"; loading = none }

abbrev failure : ℕ → Failure
failure status = axios_error (some (record { status = status; error = none }))

abbrev mfa_request : RequestConfig
mfa_request = record { url = "/auth/mfa/verify"; authorization = some "Bearer pending" }

intercept_failure-unauthorized_example :
    let next = intercept_failure profile_codec (failure 401) browser in
    (is_authenticated next.storage ≡ false)
    × (get_stored_profile profile_codec next.storage ≡ none)
    × (read_stored_role profile_codec next.storage ≡ none)
    × (intercept_request next.storage mfa_request ≡ mfa_request)
    × (get_item "theme" next.storage
        ≡ (if includes "theme" session_keys then none else get_item "theme" signed_in_storage))
    × (next.loading ≡ some "/admin/login")
    × (next.pathname ≡ "/admin/users")
unfolding get_api_error_status
intercept_failure-unauthorized_example =
    intercept_failure-unauthorized profile_codec (failure 401) browser mfa_request "theme" refl refl

abbrev checked : Protection
checked = record { auth_checked = true; authorized = true; profile = some ann_profile }

route-IsVerifiedSession_example : IsVerifiedSession checked (some ann_profile) (some admin)
unfolding route
route-IsVerifiedSession_example =
    route-IsVerifiedSession checked (some ann_profile) (some admin) incidents incidents_page refl
      refl

route-admin_example :
    (◌≡◌ {A = Option UserRole} (some admin) (some admin))
    × IsVerifiedSession checked (some ann_profile) (some admin)
unfolding route
route-admin_example =
    route-admin checked (some ann_profile) (some admin) components components_page refl refl

follow-is_some_example : is_some (follow checked (some ann_profile) (some admin) 3 members) ≡ true
follow-is_some_example = follow-is_some checked (some ann_profile) (some admin) members refl

abbrev login_response : LoginResponse
login_response = record { token = "t2"; user = ann; mfa_required = some true }

abbrev verify_response : MfaVerifyResponse
verify_response = record { token = "t3"; mfa_verified = true; user = ann }

abbrev waiting : LoginPage
waiting =
    finish_submit profile_codec (answered login_response) (begin_submit (opened empty_storage))

reachable-IsConsistent_example : IsConsistent waiting
unfolding begin_submit
reachable-IsConsistent_example = reachable-IsConsistent profile_codec empty_storage (
    step_on (step_on start (submit (opened empty_storage)))
      (submitted (begin_submit (opened empty_storage)) (answered login_response) refl))

finish_submit-session_example :
    let page = opened empty_storage in
    let next = finish_submit profile_codec (answered login_response) page in
    let required = truthy_flag login_response.mfa_required in
    (get_stored_token next.storage
      ≡ (if required then get_stored_token page.storage else some "t2"))
    × (is_mfa_verified profile_codec next.storage
        ≡ (if required then is_mfa_verified profile_codec page.storage else true))
    × (next.navigated ≡ (if required then page.navigated else some "/admin"))
finish_submit-session_example =
    finish_submit-session profile_codec login_response (opened empty_storage)

abbrev form : FormState
form = record {
  username = "ann";
  email = "ann@example.org";
  current_password = "old password";
  new_password = "new password";
  confirm_password = "new password";
}

abbrev profile_page : ProfilePage
profile_page = record {
  profile = none;
  form = form;
  mfa_step = idle;
  mfa_setup = record {
    secret = "";
    otpauth_url = "";
    recovery_codes = List.[];
    verification_code = "123456";
    recovery_code = "";
  };
  loading = false;
  saving = false;
  error = none;
  success = none;
  mfa_error = none;
  mfa_success = none;
  disable_password = "";
  disable_code = "";
  storage = signed_in_storage;
  navigated = none;
}

-- answers to a verification, and to nothing else
abbrev server : Server
server = record {
  me = thrown none;
  update = λ request. ok done;
  setup = thrown (some "Network Error");
  verify = λ request. ok verify_response;
  disable = λ password code. thrown none;
}

mfa_handlers_settle_example :
    (is_pending (handle_mfa_setup server profile_page).mfa_step ≡ false)
    × (is_pending (handle_mfa_verify profile_codec server profile_page).mfa_step ≡ false)
    × (is_pending (handle_mfa_disable profile_codec server profile_page).mfa_step ≡ false)
mfa_handlers_settle_example = mfa_handlers_settle profile_codec server profile_page

abbrev update_request : UpdateRequest
update_request = record { username = "ann"; passwords = some ("old password", "new password") }

plan_update-passwords_example :
    (◌≡◌ {A = String} "new password" form.new_password)
    × (◌≡◌ {A = String} form.confirm_password form.new_password)
    × (◌≡◌ {A = String} "old password" form.current_password)
    × (8 ≤ utf16_length "new password")
    × (is_truthy "old password" ≡ true)
unfolding plan_update utf16_length
plan_update-passwords_example =
    plan_update-passwords form none update_request "old password" "new password" refl refl
