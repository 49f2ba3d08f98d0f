-- ===== src/Login.antt =====
-- apps/web/src/pages/admin/AdminLogin.tsx: the state of the login page and its handlers. A handler
-- that awaits a request is two steps: what it does before the request, and what it does with the
-- reply.
pub mod Laws
use Prim.Native.String.{String, ◌++◌}
use mathlib.Core.Path.{◌≡◌}
use mathlib.Core.Bool.{Bool, true, false}
use mathlib.Core.Option.{Option, none, some}
use statora.Prelude.Tests.{if◌then◌else◌}
use statora.Prelude.Equality.{◌==◌, String_eq}
use statora.Types.User.{User, LoginResponse, MfaVerifyResponse, StoredUserProfile}
use statora.Auth.Storage.{LocalStorage, Codec}
use statora.Auth.{truthy_text, truthy_flag, set_auth_session, clear_auth_session}
use statora.Api.{Reply, answered, failed, get_api_error_message, RequestConfig}

-- the code in the query parameter `error`, if it is there
unfoldable pub sso_error : Option String → String
sso_error none = ""
sso_error (some code) =
    if code == "sso_not_configured"
    then "SSO is not configured."
    else if code == "sso_disabled"
    then "SSO is currently disabled."
    else if code == "user_not_found"
    then "No user account matches this SSO login."
    else if code == "sso_not_allowed"
    then "SSO is not enabled for this account."
    else if code == "invalid_token"
    then "The SSO token is invalid or expired."
    else ""

-- The state hooks of the page, with the storage, and the path last handed to `navigate`.
pub record LoginPage : Type 0 where
  pub email : String
  pub password : String
  pub error : String
  pub loading : Bool
  pub mfa_code : String
  pub mfa_error : String
  pub mfa_loading : Bool
  pub pending_token : Option String
  pub pending_user : Option User
  pub storage : LocalStorage
  pub navigated : Option String

abbrev pub opened : LocalStorage → LoginPage
opened storage = record {
  email = "";
  password = "";
  error = "";
  loading = false;
  mfa_code = "";
  mfa_error = "";
  mfa_loading = false;
  pending_token = none;
  pending_user = none;
  storage = storage;
  navigated = none;
}

unfoldable pub begin_submit : LoginPage → LoginPage
begin_submit page = record page { error = ""; loading = true }

-- the code after `setMfaError('')`, up to the reply
unfoldable pub begin_mfa_verify : LoginPage → LoginPage
begin_mfa_verify page =
    if truthy_text page.pending_token
    then record page { mfa_error = ""; mfa_loading = true }
    else record page { mfa_error = "Your MFA session expired. Please sign in again." }

-- the header handed to the client, if a request is sent
unfoldable pub mfa_verify_request : LoginPage → Option RequestConfig
mfa_verify_request page = elim page.pending_token [
  | none ↦ none
  | some token ↦
      if truthy_text (some token)
      then some (record { url = "/auth/mfa/verify"; authorization = some ("Bearer " ++ token) })
      else none
]

unfoldable pub handle_mfa_cancel : LoginPage → LoginPage
handle_mfa_cancel page = record page {
  pending_token = none;
  pending_user = none;
  mfa_code = "";
  mfa_error = "";
  storage = clear_auth_session page.storage;
}

module _ (json : Codec StoredUserProfile) where
  -- the body of `try` after the reply
  unfoldable pub signed_in : LoginResponse → LoginPage → LoginPage
  signed_in res page =
      if truthy_flag res.mfa_required
      then record page {
        pending_token = some res.token;
        pending_user = some res.user;
        mfa_code = "";
        mfa_error = "";
      }
      else record page {
        storage =
            set_auth_session json res.token (record res.user { mfa_verified = some true })
              page.storage;
        navigated = some "/admin";
      }

  unfoldable pub finish_submit : Reply LoginResponse → LoginPage → LoginPage
  unfolding signed_in
  finish_submit (answered res) page = record (signed_in res page) { loading = false }
  finish_submit (failed err) page = record page {
    error = get_api_error_message err "Invalid credentials";
    loading = false;
  }

  unfoldable pub finish_mfa_verify : Reply MfaVerifyResponse → LoginPage → LoginPage
  finish_mfa_verify (answered res) page = record page {
    storage =
        set_auth_session json res.token
          (record res.user { mfa_enabled = some true; mfa_verified = some res.mfa_verified })
          page.storage;
    pending_token = none;
    pending_user = none;
    navigated = some "/admin";
    mfa_loading = false;
  }
  finish_mfa_verify (failed err) page = record page {
    mfa_error = get_api_error_message err "Invalid verification code";
    mfa_loading = false;
  }

  -- one event of the page; a reply comes only while its request is under way
  pub data Step : LoginPage → LoginPage → Type 0 where
    typed :
        (page : LoginPage) (email password mfa_code : String)
        → Step page (record page { email = email; password = password; mfa_code = mfa_code })
    submit : (page : LoginPage) → Step page (begin_submit page)
    submitted :
        (page : LoginPage) (reply : Reply LoginResponse)
        → page.loading ≡ true
        → Step page (finish_submit reply page)
    verify : (page : LoginPage) → Step page (begin_mfa_verify page)
    verified :
        (page : LoginPage) (reply : Reply MfaVerifyResponse)
        → page.mfa_loading ≡ true
        → Step page (finish_mfa_verify reply page)
    cancel : (page : LoginPage) → Step page (handle_mfa_cancel page)

  pub data Reachable (storage : LocalStorage) : LoginPage → Type 0 where
    start : Reachable storage (opened storage)
    follow :
        {page next : LoginPage} → Reachable storage page → Step page next → Reachable storage next
