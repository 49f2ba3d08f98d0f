-- ===== src/Admin/Settings/Laws.antt =====
-- Lemmas on loading and saving in apps/web/src/pages/admin/AdminSettings.tsx.
use Prim.Native.String.{String}
use mathlib.Core.Path.{◌≡◌}
use mathlib.Core.Option.{none, some}
use statora.Prelude.Tests.{or_else}
use statora.Types.Settings.{StatusPageSettings, ThemeMode, light}
use statora.Settings.Partial.{field_of}
use statora.Api.{answered}
use statora.Theme.{ThemePresetCatalog}
use statora.Admin.Settings.Types.{Sso, MailSettings, PartialSso, Received, MailPatch}
use statora.Admin.Settings.MetaTags.{Tags, AreClean, parse_meta_tags_text-meta_tags_to_text}
use statora.Admin.Settings.Normalize.{normalize_mail_settings, normalize_sso, normalize_settings}
use statora.Admin.Settings.{SettingsPage, Payload, payload, mail_patch, finish_load}

-- the meta tags that arrived
abbrev pub tags_of : Received → Tags
tags_of input = or_else (field_of input.page.head (λ h. h.meta_tags)) mathlib.Core.List.[]

-- the mode that arrived
abbrev pub mode_of : Received → ThemeMode
mode_of input = or_else (field_of input.page.theme (λ t. t.mode)) light

-- every field of the SSO settings, with an empty secret
abbrev pub sso_body : Sso → PartialSso
sso_body s = record {
  enabled = some s.enabled;
  provider = some s.provider;
  issuer = some s.issuer;
  audience = some s.audience;
  algorithm = some s.algorithm;
  public_key_pem = some s.public_key_pem;
  shared_secret = some "";
  has_secret = none;
}

-- every field of the mail settings, with neither a password nor a key
abbrev pub mail_body : MailSettings → MailPatch
mail_body m = record {
  provider = some m.provider;
  base_url = some m.base_url;
  smtp = record {
    settings = record {
      host = some m.smtp.host;
      port = some m.smtp.port;
      username = some m.smtp.username;
      has_password = none;
      from_email = some m.smtp.from_email;
      from_name = some m.smtp.from_name;
      encryption = some m.smtp.encryption;
    };
    password = none;
  };
  sendgrid = record {
    settings = record {
      has_api_key = none;
      from_email = some m.sendgrid.from_email;
      from_name = some m.sendgrid.from_name;
    };
    api_key = none;
  };
}

abbrev pub body_of : StatusPageSettings → ThemeMode → Sso → MailSettings → Payload
body_of page mode sso mail = record {
  head = page.head;
  branding = page.branding;
  preset = page.theme.preset;
  mode = mode;
  footer = page.footer;
  sso = sso_body sso;
  mail = mail_body mail;
  custom_css = page.custom_css;
}

module _ (lower_case : String → String) (loaded_at now : String) where
  -- If settings arrive whose meta tags have distinct keys, not empty, trimmed and without colon and
  -- line end, and values that are trimmed and without line end, and if the fields for the password
  -- and the key are empty, a save of the page as it is sends every setting as it was normalised: the
  -- head, the branding, the preset, the mode, the footer, the fields of SSO and mail, and the style
  -- sheet. It sends an empty shared secret, and neither a password nor a key.
  pub payload-finish_load :
      (catalog : ThemePresetCatalog) (input : Received) (page : SettingsPage)
      → AreClean (tags_of input)
      → page.smtp_password ≡ ""
      → page.send_grid_api_key ≡ ""
      → payload (finish_load lower_case loaded_at now catalog (answered (some input)) page)
        ≡ body_of
            (normalize_settings lower_case loaded_at now (some input) catalog.presets).page
            (mode_of input)
            (normalize_sso input.sso)
            (normalize_mail_settings input.mail)
  unfolding payload finish_load mail_patch normalize_settings
  payload-finish_load catalog input page clean no_password no_key =
      rw (parse_meta_tags_text-meta_tags_to_text (tags_of input) clean, no_password, no_key)
