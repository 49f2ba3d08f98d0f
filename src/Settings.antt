-- ===== src/Settings.antt =====
-- apps/web/src/lib/statusPageSettings.ts: normalising, caching and applying the settings of the
-- status page.
pub mod Partial
pub mod Preset
pub mod Cache
pub mod Document
use Prim.Native.String.{String}
use mathlib.Core.Bool.{Bool, true, not, ◌||◌}
use mathlib.Core.Option.{Option, none, some}
use mathlib.Core.List.{[]}
use statora.Prelude.Tests.{or_else, is_some, if◌then◌else◌}
use statora.Types.Settings.{StatusPageSettings}
use statora.Settings.Partial.{PartialSettings, field_of}
use statora.Settings.Preset.{default_theme_preset, normalize_preset}

unfoldable pub default_status_page_settings : StatusPageSettings
default_status_page_settings = record {
  head = record {
    title = "Statora";
    description = "Live system status and incident updates.";
    keywords = "status, uptime, incidents, maintenance";
    favicon_url = "/vite.svg";
    meta_tags = [];
  };
  branding = record {
    site_name = "Statora";
    logo_url = "";
    background_image_url = "";
    hero_image_url = "";
  };
  theme = record {
    preset = default_theme_preset;
    applied_preset = none;
    mode = none;
    overrides = none;
    resolved = none;
  };
  layout = none;
  footer = record { text = ""; show_powered_by = true };
  custom_css = "";
  updated_at = "";
  created_at = "";
}

unfoldable pub normalize_status_page_settings : Option PartialSettings → StatusPageSettings
unfolding default_status_page_settings
normalize_status_page_settings none = default_status_page_settings
normalize_status_page_settings (some settings) =
    let defaults = default_status_page_settings in
    record {
      head = record {
        title = or_else (field_of settings.head (λ h. h.title)) defaults.head.title;
        description =
            or_else (field_of settings.head (λ h. h.description)) defaults.head.description;
        keywords = or_else (field_of settings.head (λ h. h.keywords)) defaults.head.keywords;
        favicon_url =
            or_else (field_of settings.head (λ h. h.favicon_url)) defaults.head.favicon_url;
        meta_tags = or_else (field_of settings.head (λ h. h.meta_tags)) [];
      };
      branding = record {
        site_name =
            or_else (field_of settings.branding (λ b. b.site_name)) defaults.branding.site_name;
        logo_url = or_else (field_of settings.branding (λ b. b.logo_url)) "";
        background_image_url =
            or_else (field_of settings.branding (λ b. b.background_image_url)) "";
        hero_image_url = or_else (field_of settings.branding (λ b. b.hero_image_url)) "";
      };
      theme = record {
        preset = normalize_preset (field_of settings.theme (λ t. t.preset));
        applied_preset = field_of settings.theme (λ t. t.applied_preset);
        mode = field_of settings.theme (λ t. t.mode);
        overrides = field_of settings.theme (λ t. t.overrides);
        resolved = field_of settings.theme (λ t. t.resolved);
      };
      layout = settings.layout;
      footer = record {
        text = or_else (field_of settings.footer (λ f. f.text)) "";
        show_powered_by = or_else (field_of settings.footer (λ f. f.show_powered_by)) true;
      };
      custom_css = or_else settings.custom_css "";
      updated_at = or_else settings.updated_at "";
      created_at = or_else settings.created_at "";
    }

-- `parseStatusPageSettingsPayload`; `none` is a payload that is no object
unfoldable pub parse_status_page_settings_payload :
    Option PartialSettings → Option StatusPageSettings
unfolding normalize_status_page_settings
parse_status_page_settings_payload none = none
parse_status_page_settings_payload (some candidate) =
    if not (is_some candidate.head)
      || not (is_some candidate.branding)
      || not (is_some candidate.theme)
      || not (is_some candidate.footer)
    then none
    else some (normalize_status_page_settings (some candidate))
