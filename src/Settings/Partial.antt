-- ===== src/Settings/Partial.antt =====
-- `Partial<StatusPageSettings>` as it arrives at run time: any section may be missing, and any
-- property of a section.
use Prim.Native.String.{String}
use mathlib.Core.Bool.{Bool}
use mathlib.Core.Option.{Option, none, some}
use mathlib.Core.List.{List}
use statora.Types.Settings.{ThemeMode, LayoutVariant, Overrides, Resolved, StatusPageSettings}

pub record PartialHead : Type 0 where
  pub title : Option String
  pub description : Option String
  pub keywords : Option String
  pub favicon_url : Option String
  pub meta_tags : Option (List (String × String))

pub record PartialBranding : Type 0 where
  pub site_name : Option String
  pub logo_url : Option String
  pub background_image_url : Option String
  pub hero_image_url : Option String

pub record PartialTheme : Type 0 where
  pub preset : Option String
  pub applied_preset : Option String
  pub mode : Option ThemeMode
  pub overrides : Option Overrides
  pub resolved : Option Resolved

pub record PartialFooter : Type 0 where
  pub text : Option String
  pub show_powered_by : Option Bool

pub record PartialSettings : Type 0 where
  pub head : Option PartialHead
  pub branding : Option PartialBranding
  pub theme : Option PartialTheme
  pub layout : Option LayoutVariant
  pub footer : Option PartialFooter
  pub custom_css : Option String
  pub updated_at : Option String
  pub created_at : Option String

-- `section?.property`
abbrev pub field_of {ℓ κ} : {S : Type ℓ} {A : Type κ} → Option S → (S → Option A) → Option A
field_of none get = none
field_of (some section) get = get section

-- complete settings, where a partial form is wanted
unfoldable pub as_partial : StatusPageSettings → PartialSettings
as_partial s = record {
  head = some (record {
    title = some s.head.title;
    description = some s.head.description;
    keywords = some s.head.keywords;
    favicon_url = some s.head.favicon_url;
    meta_tags = some s.head.meta_tags;
  });
  branding = some (record {
    site_name = some s.branding.site_name;
    logo_url = some s.branding.logo_url;
    background_image_url = some s.branding.background_image_url;
    hero_image_url = some s.branding.hero_image_url;
  });
  theme = some (record {
    preset = some s.theme.preset;
    applied_preset = s.theme.applied_preset;
    mode = s.theme.mode;
    overrides = s.theme.overrides;
    resolved = s.theme.resolved;
  });
  layout = s.layout;
  footer =
      some (record { text = some s.footer.text; show_powered_by = some s.footer.show_powered_by });
  custom_css = some s.custom_css;
  updated_at = some s.updated_at;
  created_at = some s.created_at;
}
