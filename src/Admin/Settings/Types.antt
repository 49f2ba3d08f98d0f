-- ===== src/Admin/Settings/Types.antt =====
-- apps/web/src/types/index.ts: the parts of the settings that only the settings page of the
-- administration reads, and the parts of them that arrive.
use Prim.Native.String.{String}
use mathlib.Core.Bool.{Bool}
use mathlib.Core.Option.{Option}
use statora.Types.Json.{Decimal}
use statora.Types.Settings.{StatusPageSettings}
use statora.Settings.Partial.{PartialSettings}

pub data Algorithm : Type 0 where
  hs256 rs256 : Algorithm

-- `sharedSecret` and `hasSecret` may be missing
pub record Sso : Type 0 where
  pub enabled : Bool
  pub provider : String
  pub issuer : String
  pub audience : String
  pub algorithm : Algorithm
  pub public_key_pem : String
  pub shared_secret : Option String
  pub has_secret : Option Bool

pub data MailProviderType : Type 0 where
  no_provider smtp sendgrid : MailProviderType

pub data Encryption : Type 0 where
  starttls tls unencrypted : Encryption

pub record SmtpSettings : Type 0 where
  pub host : String
  pub port : Decimal
  pub username : String
  pub has_password : Option Bool
  pub from_email : String
  pub from_name : String
  pub encryption : Encryption

pub record SendGridSettings : Type 0 where
  pub has_api_key : Option Bool
  pub from_email : String
  pub from_name : String

pub record MailSettings : Type 0 where
  pub provider : MailProviderType
  pub smtp : SmtpSettings
  pub sendgrid : SendGridSettings
  pub base_url : String

-- `StatusPageSettings` with the two parts
pub record AllSettings : Type 0 where
  pub page : StatusPageSettings
  pub sso : Option Sso
  pub mail : Option MailSettings

pub record PartialSso : Type 0 where
  pub enabled : Option Bool
  pub provider : Option String
  pub issuer : Option String
  pub audience : Option String
  pub algorithm : Option Algorithm
  pub public_key_pem : Option String
  pub shared_secret : Option String
  pub has_secret : Option Bool

pub record PartialSmtp : Type 0 where
  pub host : Option String
  pub port : Option Decimal
  pub username : Option String
  pub has_password : Option Bool
  pub from_email : Option String
  pub from_name : Option String
  pub encryption : Option Encryption

pub record PartialSendGrid : Type 0 where
  pub has_api_key : Option Bool
  pub from_email : Option String
  pub from_name : Option String

pub record PartialMail : Type 0 where
  pub provider : Option MailProviderType
  pub smtp : Option PartialSmtp
  pub sendgrid : Option PartialSendGrid
  pub base_url : Option String

-- what arrives: any part may be missing, and any property of a part
pub record Received : Type 0 where
  pub page : PartialSettings
  pub sso : Option PartialSso
  pub mail : Option PartialMail

-- what is sent; a property that is missing is not changed
pub record SmtpPatch : Type 0 where
  pub settings : PartialSmtp
  pub password : Option String

pub record SendGridPatch : Type 0 where
  pub settings : PartialSendGrid
  pub api_key : Option String

pub record MailPatch : Type 0 where
  pub provider : Option MailProviderType
  pub base_url : Option String
  pub smtp : SmtpPatch
  pub sendgrid : SendGridPatch
