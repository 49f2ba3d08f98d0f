-- ===== src/Admin/Settings/Normalize.antt =====
-- apps/web/src/pages/admin/AdminSettings.tsx: the settings as they arrive, completed.
use Prim.Native.String.{String}
use mathlib.Core.Bool.{true, false}
use mathlib.Core.Option.{Option, none, some}
use mathlib.Core.List.{List, []}
use statora.Prelude.Tests.{or_else}
use statora.Types.Json.{Decimal}
use statora.Types.Settings.{StatusPageSettings, StatusPageThemePresetSummary}
use statora.Types.Settings
use statora.Settings.Partial.{PartialSettings, field_of}
use statora.Settings.Preset.{default_theme_preset}
use statora.Theme.{normalize_theme_preset_selection}
use statora.Admin.Settings.Types.{
  hs256, Sso, no_provider, starttls, MailSettings, AllSettings, PartialSso, PartialMail, Received,
}

abbrev pub default_port : Decimal
default_port = record { negative = false; digits = 587; scale = 0 }

unfoldable pub default_mail_settings : MailSettings
default_mail_settings = record {
  provider = no_provider;
  smtp = record {
    host = "";
    port = default_port;
    username = "";
    has_password = none;
    from_email = "";
    from_name = "";
    encryption = starttls;
  };
  sendgrid = record { has_api_key = none; from_email = ""; from_name = "" };
  base_url = "";
}

unfoldable pub normalize_mail_settings : Option PartialMail → MailSettings
unfolding default_mail_settings
normalize_mail_settings none = default_mail_settings
normalize_mail_settings (some mail) = record {
  provider = or_else mail.provider no_provider;
  smtp = record {
    host = or_else (field_of mail.smtp (λ s. s.host)) "";
    port = or_else (field_of mail.smtp (λ s. s.port)) default_port;
    username = or_else (field_of mail.smtp (λ s. s.username)) "";
    has_password = some (or_else (field_of mail.smtp (λ s. s.has_password)) false);
    from_email = or_else (field_of mail.smtp (λ s. s.from_email)) "";
    from_name = or_else (field_of mail.smtp (λ s. s.from_name)) "";
    encryption = or_else (field_of mail.smtp (λ s. s.encryption)) starttls;
  };
  sendgrid = record {
    has_api_key = some (or_else (field_of mail.sendgrid (λ s. s.has_api_key)) false);
    from_email = or_else (field_of mail.sendgrid (λ s. s.from_email)) "";
    from_name = or_else (field_of mail.sendgrid (λ s. s.from_name)) "";
  };
  base_url = or_else mail.base_url "";
}

-- `new Date().toISOString()` when the file is loaded
unfoldable pub default_settings : String → AllSettings
default_settings loaded_at = record {
  page = record {
    head = record {
      title = "Statora";
      description = "Live system status and incident updates.";
      keywords = "status, uptime, incidents, maintenance";
      favicon_url = "/vite.svg";
      meta_tags = [];
    };
    branding = record {
      site_name = "Statora";
      logo_url = "";
      background_image_url = "";
      hero_image_url = "";
    };
    theme = record {
      preset = default_theme_preset;
      applied_preset = none;
      mode = some Settings.light;
      overrides = none;
      resolved = none;
    };
    layout = none;
    footer = record { text = ""; show_powered_by = true };
    custom_css = "";
    updated_at = loaded_at;
    created_at = loaded_at;
  };
  sso = some (record {
    enabled = false;
    provider = "";
    issuer = "";
    audience = "";
    algorithm = hs256;
    public_key_pem = "";
    shared_secret = some "";
    has_secret = some false;
  });
  mail = none;
}

-- the secret is always empty, and whether there is one is not kept
abbrev pub normalize_sso : Option PartialSso → Sso
normalize_sso sso = record {
  enabled = or_else (field_of sso (λ s. s.enabled)) false;
  provider = or_else (field_of sso (λ s. s.provider)) "";
  issuer = or_else (field_of sso (λ s. s.issuer)) "";
  audience = or_else (field_of sso (λ s. s.audience)) "";
  algorithm = or_else (field_of sso (λ s. s.algorithm)) hs256;
  public_key_pem = or_else (field_of sso (λ s. s.public_key_pem)) "";
  shared_secret = some "";
  has_secret = none;
}

-- `toLowerCase()` on a name is the run-time's; `now` is the time of the call
module _ (lower_case : String → String) (loaded_at now : String) where
  abbrev normalize_page : PartialSettings → List StatusPageThemePresetSummary → StatusPageSettings
  unfolding default_settings
  normalize_page input presets =
      let defaults = (default_settings loaded_at).page in
      record {
        head = record {
          title = or_else (field_of input.head (λ h. h.title)) defaults.head.title;
          description =
              or_else (field_of input.head (λ h. h.description)) defaults.head.description;
          keywords = or_else (field_of input.head (λ h. h.keywords)) defaults.head.keywords;
          favicon_url =
              or_else (field_of input.head (λ h. h.favicon_url)) defaults.head.favicon_url;
          meta_tags = or_else (field_of input.head (λ h. h.meta_tags)) [];
        };
        branding = record {
          site_name =
              or_else (field_of input.branding (λ b. b.site_name)) defaults.branding.site_name;
          logo_url = or_else (field_of input.branding (λ b. b.logo_url)) "";
          background_image_url = or_else (field_of input.branding (λ b. b.background_image_url)) "";
          hero_image_url = or_else (field_of input.branding (λ b. b.hero_image_url)) "";
        };
        theme = record {
          preset =
              normalize_theme_preset_selection lower_case
                (or_else (field_of input.theme (λ t. t.preset)) "") presets;
          applied_preset = none;
          mode = some (or_else (field_of input.theme (λ t. t.mode)) Settings.light);
          overrides = none;
          resolved = none;
        };
        layout = none;
        footer = record {
          text = or_else (field_of input.footer (λ f. f.text)) "";
          show_powered_by = or_else (field_of input.footer (λ f. f.show_powered_by)) true;
        };
        custom_css = or_else input.custom_css "";
        updated_at = or_else input.updated_at now;
        created_at = or_else input.created_at now;
      }

  unfoldable pub normalize_settings :
      Option Received → List StatusPageThemePresetSummary → AllSettings
  unfolding default_settings normalize_mail_settings normalize_theme_preset_selection
  normalize_settings none presets = default_settings loaded_at
  normalize_settings (some input) presets = record {
    page = normalize_page input.page presets;
    sso = some (normalize_sso input.sso);
    mail = some (normalize_mail_settings input.mail);
  }
