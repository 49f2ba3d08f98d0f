-- ===== src/Types/People.antt =====
-- Members, invitations, subscribers and webhook channels.
use Prim.Native.String.{String}
use mathlib.Core.Bool.{Bool}
use mathlib.Core.Option.{Option}
use statora.Types.Status.{UserRole, UserStatus}

pub record UserMember : Type 0 where
  pub id : String
  pub username : String
  pub email : String
  pub role : UserRole
  pub status : UserStatus
  pub sso_enabled : Bool

pub record UserInvitation : Type 0 where
  pub id : String
  pub email : String
  pub role : UserRole
  pub expires_at : String
  pub created_at : String
  pub is_expired : Bool

pub record Subscriber : Type 0 where
  pub id : String
  pub email : String
  pub verified : Bool
  pub verified_at : Option String
  pub unsubscribed : Bool
  pub unsubscribed_at : Option String
  pub created_at : String

pub record WebhookChannel : Type 0 where
  pub id : String
  pub name : String
  pub url : String
  pub enabled : Bool
  pub created_at : String
