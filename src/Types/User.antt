-- ===== src/Types/User.antt =====
-- Users, the stored profile and the answers of the authentication endpoints.
use Prim.Native.String.{String}
use mathlib.Core.Bool.{Bool}
use mathlib.Core.Option.{Option}
use mathlib.Core.List.{List}
use statora.Types.Status.{UserRole}

pub record User : Type 0 where
  pub id : String
  pub username : String
  pub email : String
  pub role : UserRole
  pub mfa_enabled : Option Bool
  pub mfa_verified : Option Bool

pub record LoginResponse : Type 0 where
  pub token : String
  pub user : User
  pub mfa_required : Option Bool

pub record AuthMeResponse : Type 0 where
  pub user_id : String
  pub username : String
  pub email : String
  pub role : UserRole
  pub mfa_enabled : Bool
  pub mfa_verified : Bool

pub record StoredUserProfile : Type 0 where
  pub id : String
  pub username : String
  pub email : String
  pub role : Option UserRole
  pub mfa_enabled : Option Bool
  pub mfa_verified : Option Bool

pub record MfaSetupResponse : Type 0 where
  pub secret : String
  pub otpauth_url : String
  pub recovery_codes : List String

pub record MfaVerifyResponse : Type 0 where
  pub token : String
  pub mfa_verified : Bool
  pub user : User
