-- ===== src/Types/Settings.antt =====
-- The settings of the status page, and the partial form in which they arrive.
use Prim.Native.String.{String}
use mathlib.Core.Bool.{Bool}
use mathlib.Core.Option.{Option}
use mathlib.Core.List.{List}

pub data ThemeMode : Type 0 where
  light dark system : ThemeMode

pub data FontScale : Type 0 where
  sm md lg : FontScale

pub data LayoutVariant : Type 0 where
  classic compact minimal cards : LayoutVariant

pub record Palette : Type 0 where
  pub primary_color : String
  pub background_color : String
  pub text_color : String
  pub accent_color : String

pub record Typography : Type 0 where
  pub font_family : String
  pub font_scale : FontScale

pub record Ui : Type 0 where
  pub card_background : String
  pub border_color : String

pub record Resolved : Type 0 where
  pub light : Palette
  pub dark : Palette
  pub typography : Typography
  pub ui : Ui

pub record PaletteOverrides : Type 0 where
  pub primary_color : Option String
  pub background_color : Option String
  pub text_color : Option String
  pub accent_color : Option String

pub record TypographyOverrides : Type 0 where
  pub font_family : Option String
  pub font_scale : Option FontScale

pub record UiOverrides : Type 0 where
  pub card_background : Option String
  pub border_color : Option String

pub record Overrides : Type 0 where
  pub light : Option PaletteOverrides
  pub dark : Option PaletteOverrides
  pub typography : Option TypographyOverrides
  pub ui : Option UiOverrides

pub record Head : Type 0 where
  pub title : String
  pub description : String
  pub keywords : String
  pub favicon_url : String
  pub meta_tags : List (String × String)

pub record Branding : Type 0 where
  pub site_name : String
  pub logo_url : String
  pub background_image_url : String
  pub hero_image_url : String

pub record Theme : Type 0 where
  pub preset : String
  pub applied_preset : Option String
  pub mode : Option ThemeMode
  pub overrides : Option Overrides
  pub resolved : Option Resolved

pub record Footer : Type 0 where
  pub text : String
  pub show_powered_by : Bool

-- `sso` and `mail` are left out: no function of the modelled files reads or writes them, and
-- `normalizeStatusPageSettings` drops them.
pub record StatusPageSettings : Type 0 where
  pub head : Head
  pub branding : Branding
  pub theme : Theme
  pub layout : Option LayoutVariant
  pub footer : Footer
  pub custom_css : String
  pub updated_at : String
  pub created_at : String

pub record StatusPageThemePresetSummary : Type 0 where
  pub key : String
  pub label : String
