-- ===== src/Theme/Loader/Laws.antt =====
-- Lemmas on the loader of apps/web/src/lib/themePresetLoader.ts.
use Prim.Native.String.{String}
use mathlib.Core.Path.{◌≡◌, refl}
use mathlib.Core.Logic.{inl, inr}
use mathlib.Core.Bool.{Bool, true, not, ◌&&◌, ◌||◌}
use mathlib.Core.Option.{Option, none, some}
use mathlib.Core.List.{List}
use native.Mathlib.Omega.{arith}
use statora.Prelude.Tests.{if◌then◌else◌, Bool-cases, Option-cases}
use statora.Prelude.Equality.{◌==◌, String_eq, Option_eq, option_beq_iff, ==-refl}
use statora.Types.Settings.{StatusPageThemePresetSummary}
use statora.Settings.Preset.{default_theme_preset}
use statora.Theme.{
  Hrefs, href_of, truthy_href, normalize_theme_preset_selection, get_preset_href_map,
}
use statora.Theme.Loader.{
  StylesheetLink, ensure_theme_stylesheet_element, ThemeLoadResult, Loaded, load_stylesheet_href,
  load_fallback, load_requested, load_theme_preset_stylesheet, settle,
}

module _ (loads : String → Bool) where
  load_stylesheet_href-loaded :
      (link : StylesheetLink) (href preset : String) (b : Bool)
      → (load_stylesheet_href loads link href preset).result ≡ some b
      → (load_stylesheet_href loads link href preset).link.loaded_preset ≡ some preset
  unfolding load_stylesheet_href
  load_stylesheet_href-loaded link href preset b h =
      ground (arith, h, option_beq_iff link.loaded_preset (some preset))

-- What a result says of the element: without a fallback, the requested preset is loaded; with it,
-- the default is loaded, or has no address.
abbrev pub reports : Hrefs → String → String → Option ThemeLoadResult → Option String → Bool
reports hrefs requested fallback none loaded = true
reports hrefs requested fallback (some r) loaded =
    if r.used_fallback
    then ((r.applied_preset == fallback) && (loaded == some fallback))
      || ((r.applied_preset == requested) && not (truthy_href (href_of fallback hrefs)))
    else (r.applied_preset == requested) && (loaded == some requested)

module _ (loads : String → Bool) (hrefs : Hrefs) (requested fallback : String) where
  settle-reports :
      (loaded : Loaded Bool)
      → ((b : Bool) → loaded.result ≡ some b → loaded.link.loaded_preset ≡ some fallback)
      → let r = settle loads (record { applied_preset = fallback; used_fallback = true }) loaded in
        reports hrefs requested fallback r.result r.link.loaded_preset ≡ true
  settle-reports loaded h = elim (Option-cases loaded.result) [
    | inl rejected ↦ rw rejected refl
    | inr (b, fulfilled) ↦ rw (fulfilled, h b fulfilled) (rw (==-refl fallback) refl)
  ]

  load_fallback-reports :
      (link : StylesheetLink)
      → let r = load_fallback loads hrefs requested fallback link in
        reports hrefs requested fallback r.result r.link.loaded_preset ≡ true
  unfolding load_fallback
  load_fallback-reports link = elim (Option-cases (href_of fallback hrefs)) [
    | inl missing ↦ rw (missing, load_fallback, reports) (ground (arith, ==-refl requested))
    | inr (href, found) ↦ elim (Bool-cases (truthy_href (some href))) [
      | inl set ↦
          rw (found, set, load_fallback)
            (settle-reports (load_stylesheet_href loads link href fallback)
              (load_stylesheet_href-loaded loads link href fallback))
      | inr blank ↦ rw (found, blank, load_fallback, reports) (ground (arith, ==-refl requested))
    ]
  ]

  load_requested-reports :
      (loaded : Loaded Bool)
      → ((b : Bool) → loaded.result ≡ some b → loaded.link.loaded_preset ≡ some requested)
      → let r = load_requested loads hrefs requested fallback loaded in
        reports hrefs requested fallback r.result r.link.loaded_preset ≡ true
  load_requested-reports loaded h = elim (Option-cases loaded.result) [
    | inl rejected ↦ rw rejected (load_fallback-reports loaded.link)
    | inr (b, fulfilled) ↦ rw (fulfilled, h b fulfilled) (rw (==-refl requested) refl)
  ]

-- When the loader answers without a fallback, it reports the preset that the selection gives for the
-- request, and the element has loaded it. With a fallback, it reports the one selected for the
-- default, and the element has loaded that, or this one has no address, and then the requested
-- preset is reported and nothing is claimed of the element. A rejected promise claims nothing.
pub load_theme_preset_stylesheet-reports :
    (loads : String → Bool) (lower_case : String → String) (modules : List (String × String))
    (requested_preset : String) (presets : List StatusPageThemePresetSummary)
    (found : Option StylesheetLink)
    → let r =
        load_theme_preset_stylesheet loads lower_case modules requested_preset presets found in
      reports
        (get_preset_href_map lower_case modules)
        (normalize_theme_preset_selection lower_case requested_preset presets)
        (normalize_theme_preset_selection lower_case default_theme_preset presets)
        r.result
        r.link.loaded_preset
      ≡ true
unfolding load_theme_preset_stylesheet
load_theme_preset_stylesheet-reports loads lower_case modules requested_preset presets found =
    let hrefs = get_preset_href_map lower_case modules in
    let requested = normalize_theme_preset_selection lower_case requested_preset presets in
    let fallback = normalize_theme_preset_selection lower_case default_theme_preset presets in
    let link = ensure_theme_stylesheet_element found in
    let fall_back = load_fallback-reports loads hrefs requested fallback link in
    elim (Option-cases (href_of requested hrefs)) [
      | inl missing ↦ rw (missing, load_theme_preset_stylesheet) fall_back
      | inr (href, there) ↦ elim (Bool-cases (truthy_href (some href))) [
        | inl set ↦
            rw (there, set, load_theme_preset_stylesheet)
              (load_requested-reports loads hrefs requested fallback
                (load_stylesheet_href loads link href requested)
                (load_stylesheet_href-loaded loads link href requested))
        | inr blank ↦ rw (there, blank, load_theme_preset_stylesheet) fall_back
      ]
    ]
