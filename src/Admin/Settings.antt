-- ===== src/Admin/Settings.antt =====
-- apps/web/src/pages/admin/AdminSettings.tsx: loading and saving the settings, and the test mail.
pub mod MetaTags
pub mod Types
pub mod Normalize
pub mod Laws
pub mod Secret
use Prim.Native.String.{String, ◌++◌}
use mathlib.Core.Bool.{Bool, true, false}
use mathlib.Core.Option
use mathlib.Core.Option.{Option, none, some}
use mathlib.Core.List.{List, []}
use statora.Prelude.Tests.{if◌then◌else◌, or_else}
use statora.Prelude.Text.{is_truthy, or_text, trim}
use statora.Types.Settings.{
  Head, Branding, Footer, ThemeMode, dark, light, system, StatusPageThemePresetSummary,
}
use statora.Settings.Partial.{field_of}
use statora.Api.{Reply, answered, failed, get_api_error_message}
use statora.Theme.{ThemePresetCatalog}
use statora.Admin.Requests.{Request, post, patch}
use statora.Admin.Settings.Types.{
  Algorithm, Sso, MailSettings, AllSettings, PartialSso, PartialSmtp, PartialSendGrid, Received,
  SmtpPatch, SendGridPatch, MailPatch,
}
use statora.Admin.Settings.MetaTags.{parse_meta_tags_text, meta_tags_to_text}
use statora.Admin.Settings.Normalize.{default_settings, normalize_settings}

-- the state hooks of the page
pub record SettingsPage : Type 0 where
  pub loading : Bool
  pub saving : Bool
  pub error : Option String
  pub success : Option String
  pub settings : AllSettings
  pub theme_presets : List StatusPageThemePresetSummary
  pub theme_preset_notice : Option String
  pub meta_tags_text : String
  pub smtp_password : String
  pub send_grid_api_key : String
  pub test_email_to : String
  pub test_email_sending : Bool
  pub test_email_result : Option (Bool × String)

-- `StatusPageSettingsPatchRequest`, as far as the page fills it
pub record Payload : Type 0 where
  pub head : Head
  pub branding : Branding
  pub preset : String
  pub mode : ThemeMode
  pub footer : Footer
  pub sso : PartialSso
  pub mail : MailPatch
  pub custom_css : String

-- `{ ...patch, password }`, for a secret that was typed
abbrev pub typed_secret : String → Option String
typed_secret secret = if is_truthy (trim secret) then some (trim secret) else none

unfoldable pub mail_patch : SettingsPage → MailPatch
unfolding trim
mail_patch page =
    let mail = page.settings.mail in
    record {
      provider = Option.map (λ m. m.provider) mail;
      base_url = Option.map (λ m. m.base_url) mail;
      smtp = record {
        settings = record {
          host = Option.map (λ m. m.smtp.host) mail;
          port = Option.map (λ m. m.smtp.port) mail;
          username = Option.map (λ m. m.smtp.username) mail;
          has_password = none;
          from_email = Option.map (λ m. m.smtp.from_email) mail;
          from_name = Option.map (λ m. m.smtp.from_name) mail;
          encryption = Option.map (λ m. m.smtp.encryption) mail;
        };
        password = typed_secret page.smtp_password;
      };
      sendgrid = record {
        settings = record {
          has_api_key = none;
          from_email = Option.map (λ m. m.sendgrid.from_email) mail;
          from_name = Option.map (λ m. m.sendgrid.from_name) mail;
        };
        api_key = typed_secret page.send_grid_api_key;
      };
    }

-- `settings.sso?.…`
abbrev sso_patch : Option Sso → PartialSso
sso_patch sso = record {
  enabled = Option.map (λ s. s.enabled) sso;
  provider = Option.map (λ s. s.provider) sso;
  issuer = Option.map (λ s. s.issuer) sso;
  audience = Option.map (λ s. s.audience) sso;
  algorithm = Option.map (λ s. s.algorithm) sso;
  public_key_pem = Option.map (λ s. s.public_key_pem) sso;
  shared_secret = field_of sso (λ s. s.shared_secret);
  has_secret = none;
}

unfoldable pub payload : SettingsPage → Payload
unfolding mail_patch parse_meta_tags_text
payload page =
    let shown = page.settings.page in
    record {
      head = record shown.head { meta_tags = parse_meta_tags_text page.meta_tags_text };
      branding = shown.branding;
      preset = shown.theme.preset;
      mode = or_else shown.theme.mode light;
      footer = shown.footer;
      sso = sso_patch page.settings.sso;
      mail = mail_patch page;
      custom_css = shown.custom_css;
    }

unfoldable pub save_request : SettingsPage → Request Payload
unfolding payload
save_request page = patch "/settings/status-page" (payload page)

unfoldable pub begin_save : SettingsPage → SettingsPage
begin_save page = record page { saving = true; error = none; success = none }

unfoldable pub begin_load : SettingsPage → SettingsPage
begin_load page = record page { loading = true; error = none }

-- `if (normalized.sso) normalized.sso.sharedSecret = ''`
abbrev without_secret : AllSettings → AllSettings
without_secret s = record s {
  sso = Option.map (λ (o : Sso). record o { shared_secret = some "" }) s.sso;
}

-- the theme mode of the settings as the class `dark` of the root, with the answer of `matchMedia`
unfoldable pub apply_mode : Bool → Option ThemeMode → Bool → Bool
apply_mode system_dark none root_dark = root_dark
apply_mode system_dark (some dark) root_dark = true
apply_mode system_dark (some light) root_dark = false
apply_mode system_dark (some system) root_dark = system_dark

module _ (lower_case : String → String) (loaded_at now : String) where
  -- the first render, with the presets of the catalogue
  unfoldable pub opened : ThemePresetCatalog → SettingsPage
  unfolding default_settings
  opened catalog = record {
    loading = true;
    saving = false;
    error = none;
    success = none;
    settings = default_settings loaded_at;
    theme_presets = catalog.presets;
    theme_preset_notice = none;
    meta_tags_text = "";
    smtp_password = "";
    send_grid_api_key = "";
    test_email_to = "";
    test_email_sending = false;
    test_email_result = none;
  }

  -- settings that arrived are shown
  abbrev show_settings : AllSettings → SettingsPage → SettingsPage
  unfolding meta_tags_to_text
  show_settings normalized page = record page {
    settings = normalized;
    meta_tags_text = meta_tags_to_text normalized.page.head.meta_tags;
  }

  unfoldable pub finish_load :
      ThemePresetCatalog → Reply (Option Received) → SettingsPage → SettingsPage
  unfolding normalize_settings meta_tags_to_text
  finish_load catalog (answered input) page =
      show_settings
        (without_secret (normalize_settings lower_case loaded_at now input catalog.presets))
        (record page {
          theme_preset_notice =
              if catalog.has_errors
              then some
                  "Some local theme files are invalid or missing fields. Falling back to default values."
              else none;
          theme_presets = catalog.presets;
          loading = false;
        })
  finish_load catalog (failed err) page = record page {
    error = some (get_api_error_message err "Failed to load settings");
    loading = false;
  }

  -- `presets` are those of the page that the handler was called on
  unfoldable pub finish_save :
      List StatusPageThemePresetSummary → Reply (Option Received) → SettingsPage → SettingsPage
  unfolding normalize_settings meta_tags_to_text
  finish_save presets (answered input) page =
      show_settings (without_secret (normalize_settings lower_case loaded_at now input presets))
        (record page {
          smtp_password = "";
          send_grid_api_key = "";
          success = some "Settings saved successfully";
          saving = false;
        })
  finish_save presets (failed err) page = record page {
    error = some (get_api_error_message err "Failed to save settings");
    saving = false;
  }

-- `handleSendTestEmail` up to its request
unfoldable pub begin_test_email : SettingsPage → SettingsPage
unfolding trim
begin_test_email page =
    if is_truthy (trim page.test_email_to)
    then record page { test_email_sending = true; test_email_result = none }
    else record page { test_email_result = some (false, "Enter a recipient email address.") }

-- the recipient, if a request is sent
unfoldable pub test_email_request : SettingsPage → Option (Request String)
unfolding trim
test_email_request page =
    if is_truthy (trim page.test_email_to)
    then some (post "/settings/mail/test" (trim page.test_email_to))
    else none

-- with the message of the answer
unfoldable pub finish_test_email : Reply (Option String) → SettingsPage → SettingsPage
finish_test_email (answered message) page = record page {
  test_email_result = some (true, or_text (or_else message "") "Test email sent");
  test_email_sending = false;
}
finish_test_email (failed err) page = record page {
  test_email_result = some (false, get_api_error_message err "Failed to send test email");
  test_email_sending = false;
}
