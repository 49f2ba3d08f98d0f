-- ===== src/Profile/Page.antt =====
-- apps/web/src/pages/admin/AdminProfile.tsx: the state of the profile page and its requests.
use Prim.Native.String.{String}
use mathlib.Core.Bool.{Bool}
use mathlib.Core.Option.{Option}
use mathlib.Core.List.{List}
use statora.Types.User.{AuthMeResponse, MfaSetupResponse, MfaVerifyResponse}
use statora.Auth.Storage.{LocalStorage}

pub data MfaStep : Type 0 where
  idle setup_pending setup_show_secret verify_pending enabled disable_pending : MfaStep

pub record FormState : Type 0 where
  pub username : String
  pub email : String
  pub current_password : String
  pub new_password : String
  pub confirm_password : String

pub record MfaSetupState : Type 0 where
  pub secret : String
  pub otpauth_url : String
  pub recovery_codes : List String
  pub verification_code : String
  pub recovery_code : String

-- the state hooks of the page, the storage, and the path last handed to `navigate`
pub record ProfilePage : Type 0 where
  pub profile : Option AuthMeResponse
  pub form : FormState
  pub mfa_step : MfaStep
  pub mfa_setup : MfaSetupState
  pub loading : Bool
  pub saving : Bool
  pub error : Option String
  pub success : Option String
  pub mfa_error : Option String
  pub mfa_success : Option String
  pub disable_password : String
  pub disable_code : String
  pub storage : LocalStorage
  pub navigated : Option String

-- the outcome of a `try` block: a value, or what was thrown, with its message if it is an `Error`
pub data Outcome {ℓ} (A : Type ℓ) : Type ℓ where
  ok : A → Outcome A
  thrown : Option String → Outcome A

pub data Done : Type 0 where
  done : Done

-- `ProfileUpdateRequest`, with the passwords if they are to be changed
pub record UpdateRequest : Type 0 where
  pub username : String
  pub passwords : Option (String × String)

-- `/auth/mfa/verify` and `/auth/mfa/recovery/verify`
pub data VerifyRequest : Type 0 where
  by_code : String → VerifyRequest
  by_recovery_code : String → VerifyRequest

-- what the server answers to each request of the page
pub record Server : Type 0 where
  pub me : Outcome AuthMeResponse
  pub update : UpdateRequest → Outcome Done
  pub setup : Outcome MfaSetupResponse
  pub verify : VerifyRequest → Outcome MfaVerifyResponse
  pub disable : String → String → Outcome Done
