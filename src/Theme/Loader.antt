-- ===== src/Theme/Loader.antt =====
-- apps/web/src/lib/themePresetLoader.ts: loading the stylesheet of a preset. Whether the browser
-- loads an address is a parameter.
pub mod Laws
use Prim.Native.String.{String}
use mathlib.Core.Bool.{Bool, true, false, ◌&&◌}
use mathlib.Core.List.{List}
use mathlib.Core.Option.{Option, none, some}
use statora.Prelude.Tests.{if◌then◌else◌}
use statora.Prelude.Equality.{◌==◌, String_eq, Option_eq}
use statora.Types.Settings.{StatusPageThemePresetSummary}
use statora.Settings.Preset.{default_theme_preset}
use statora.Theme.{
  Hrefs, href_of, truthy_href, normalize_theme_preset_selection, get_preset_href_map,
}

-- the link element with the id of the theme's stylesheet
pub record StylesheetLink : Type 0 where
  pub href : Option String
  pub loaded_preset : Option String

-- `ensureThemeStylesheetElement`; `none` is a page without the element
unfoldable pub ensure_theme_stylesheet_element : Option StylesheetLink → StylesheetLink
ensure_theme_stylesheet_element none = record { href = none; loaded_preset = none }
ensure_theme_stylesheet_element (some link) = link

pub record ThemeLoadResult : Type 0 where
  pub applied_preset : String
  pub used_fallback : Bool

-- a link, and what the promise gives; `none` is a rejection
pub record Loaded {ℓ} (A : Type ℓ) : Type ℓ where
  pub link : StylesheetLink
  pub result : Option A

module _ (loads : String → Bool) where
  unfoldable pub load_stylesheet_href : StylesheetLink → String → String → Loaded Bool
  load_stylesheet_href link href preset =
      if (link.href == some href) && (link.loaded_preset == some preset)
      then record { link = link; result = some true }
      else if loads href
      then record {
        link = record { href = some href; loaded_preset = some preset };
        result = some true;
      }
      else record { link = record link { href = some href }; result = none }

  -- the promise of `load` gives the result where it is fulfilled
  abbrev pub settle : ThemeLoadResult → Loaded Bool → Loaded ThemeLoadResult
  settle result loaded = record {
    link = loaded.link;
    result = elim loaded.result [ none ↦ none | some _ ↦ some result ];
  }

  unfoldable pub load_fallback : Hrefs → String → String → StylesheetLink → Loaded ThemeLoadResult
  unfolding href_of
  load_fallback href_by_file requested fallback link = elim (href_of fallback href_by_file) [
    | none ↦ record {
      link = link;
      result = some (record { applied_preset = requested; used_fallback = true });
    }
    | some href ↦
        if truthy_href (some href)
        then settle (record { applied_preset = fallback; used_fallback = true })
            (load_stylesheet_href link href fallback)
        else record {
          link = link;
          result = some (record { applied_preset = requested; used_fallback = true });
        }
  ]

  -- `requestedHref` is there: it is loaded, and if that fails, the fallback
  abbrev pub load_requested : Hrefs → String → String → Loaded Bool → Loaded ThemeLoadResult
  load_requested href_by_file requested fallback loaded = elim loaded.result [
    | none ↦ load_fallback href_by_file requested fallback loaded.link
    | some _ ↦ record {
      link = loaded.link;
      result = some (record { applied_preset = requested; used_fallback = false });
    }
  ]

  unfoldable pub load_theme_preset_stylesheet :
      (String → String)
      → List (String × String)
      → String
      → List StatusPageThemePresetSummary
      → Option StylesheetLink
      → Loaded ThemeLoadResult
  unfolding load_fallback load_stylesheet_href
  load_theme_preset_stylesheet lower_case modules requested_preset presets found =
      let href_by_file = get_preset_href_map lower_case modules in
      let requested = normalize_theme_preset_selection lower_case requested_preset presets in
      let fallback = normalize_theme_preset_selection lower_case default_theme_preset presets in
      let link = ensure_theme_stylesheet_element found in
      elim (href_of requested href_by_file) [
        | none ↦ load_fallback href_by_file requested fallback link
        | some href ↦
            if truthy_href (some href)
            then load_requested href_by_file requested fallback
                (load_stylesheet_href link href requested)
            else load_fallback href_by_file requested fallback link
      ]
