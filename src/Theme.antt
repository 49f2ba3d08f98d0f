-- ===== src/Theme.antt =====
-- apps/web/src/lib/themePresetLoader.ts: the catalogue of theme presets and the choice among them.
-- The modules that the bundler finds under `themes/`, and the language's `toLowerCase`, are
-- parameters.
pub mod Names
pub mod Loader
pub mod Laws
use Prim.Native.String.{String}
use mathlib.Core.Bool.{Bool, true, false, not, ◌||◌}
use mathlib.Core.Option.{Option, none, some}
use mathlib.Core.List.{List, [], ◌∷◌, map}
use statora.Prelude.Tests.{if◌then◌else◌, is_some}
use statora.Prelude.Equality.{◌==◌, String_eq}
use statora.Prelude.Lists.{filter, find}
use statora.Prelude.Sort.{sort}
use statora.Prelude.Text.{is_truthy}
use statora.Types.Settings.{StatusPageThemePresetSummary}
use statora.Settings.Preset.{default_theme_preset}
use statora.Theme.Names.{to_label, normalize_theme_file_key, theme_file_pattern, file_name_of}

-- a record that is used as a map, in the order in which its keys were first set
abbrev pub Hrefs : Type 0
Hrefs = List (String × String)

unfoldable pub set_href : String → String → Hrefs → Hrefs
set_href key href [] = (key, href) ∷ []
set_href key href ((k, old) ∷ hrefs) =
    let rest = set_href key href hrefs in if k == key then (k, href) ∷ hrefs else (k, old) ∷ rest

-- `hrefByFile[key]`
unfoldable pub href_of : String → Hrefs → Option String
href_of key [] = none
href_of key ((k, href) ∷ hrefs) =
    let rest = href_of key hrefs in if k == key then some href else rest

-- an address that is there and not empty
abbrev pub truthy_href : Option String → Bool
truthy_href none = false
truthy_href (some href) = is_truthy href

unfoldable pub find_preset_by_key :
    List StatusPageThemePresetSummary → String → Option StatusPageThemePresetSummary
find_preset_by_key presets key = find (λ preset. preset.key == key) presets

-- `presets[0]?.key || DEFAULT_THEME_PRESET`
abbrev pub first_key : List StatusPageThemePresetSummary → String
first_key [] = default_theme_preset
first_key (preset ∷ presets) = if is_truthy preset.key then preset.key else default_theme_preset

-- `locale_compare a b`: `a.localeCompare(b)` is not positive
unfoldable pub preset_before :
    (String → String → Bool) → StatusPageThemePresetSummary → StatusPageThemePresetSummary → Bool
preset_before locale_compare a b =
    if a.key == default_theme_preset
    then true
    else if b.key == default_theme_preset
    then false
    else locale_compare a.label b.label

pub record ThemePresetCatalog : Type 0 where
  pub presets : List StatusPageThemePresetSummary
  pub has_errors : Bool

module _ (lower_case : String → String) where
  -- the loop over the modules that were found, each with its path and its address
  unfoldable pub collect_hrefs : List (String × String) → Hrefs → Hrefs
  collect_hrefs [] hrefs = hrefs
  collect_hrefs ((path, href) ∷ modules) hrefs =
      let normalized = normalize_theme_file_key lower_case (file_name_of path) in
      collect_hrefs modules
        (if theme_file_pattern normalized then set_href normalized href hrefs else hrefs)

  unfoldable pub get_preset_href_map : List (String × String) → Hrefs
  unfolding collect_hrefs
  get_preset_href_map modules = collect_hrefs modules []

  unfoldable pub get_theme_presets :
      (String → String → Bool) → List (String × String) → ThemePresetCatalog
  unfolding get_preset_href_map
  get_theme_presets locale_compare modules =
      let href_by_file = get_preset_href_map modules in
      record {
        presets = sort (preset_before locale_compare) (
            map (λ name. record { key = name; label = to_label name })
              (filter theme_file_pattern (map (λ entry. entry.0) href_by_file)));
        has_errors = not (truthy_href (href_of default_theme_preset href_by_file));
      }

  unfoldable pub normalize_theme_preset_selection :
      String → List StatusPageThemePresetSummary → String
  unfolding find_preset_by_key
  normalize_theme_preset_selection requested_preset presets =
      let requested = normalize_theme_file_key lower_case requested_preset in
      if is_some (find_preset_by_key presets requested)
      then requested
      else if is_some (find_preset_by_key presets default_theme_preset)
      then default_theme_preset
      else first_key presets
