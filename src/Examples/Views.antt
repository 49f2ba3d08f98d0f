-- ===== src/Examples/Views.antt =====
-- The document, themes, rich text and monitoring at concrete inputs.
use Prim.Native.String.{String}
use mathlib.Core.Path.{◌≡◌, refl, ap}
use mathlib.Core.Logic.{◌≢◌}
use mathlib.Core.Bool.{Bool, true, false}
use mathlib.Core.Option.{none, some}
use mathlib.Core.List.{List, [], ◌∷◌, map}
use native.Mathlib.Omega.{arith}
use statora.Prelude.Tests.{is_some, ltb, leb}
use statora.Prelude.Lists.{length, filter}
use statora.Prelude.Sort.{sort}
use statora.Types.Json.{Json, number, arr, obj, nil, end, field}
use statora.Types.Settings.{StatusPageSettings}
use statora.Settings.{default_status_page_settings}
use statora.Prelude.Text.{is_truthy}
use statora.Settings.Document.{meta, Document, is_custom, apply_status_page_document_settings}
use statora.Settings.Document.Laws.{read_meta, wanted, custom-apply_status_page_document_settings}
use statora.Theme.{
  set_href, preset_before, get_preset_href_map, get_theme_presets, normalize_theme_preset_selection,
  href_of,
}
use statora.Theme.Names.{theme_file_pattern, normalize_theme_file_key, file_name_of}
use statora.Theme.Laws.{selection-IsKnown}
use statora.Theme.Loader.{load_theme_preset_stylesheet}
use statora.Theme.Loader.Laws.{reports, load_theme_preset_stylesheet-reports}
use statora.Settings.Preset.{default_theme_preset}
use statora.Profile.Page.{ok}
use statora.Query.{first_state, is_falsy, begin_fetch, finish_fetch}
use statora.Query.Laws.{HasPages, is_thrown, finish_fetch-HasPages}
use statora.Profile.{utf16_length}

-- a tag of an earlier application, and settings with another
abbrev old_document : Document
old_document = record {
  title = "";
  head = meta (record { name = some "author"; property = none; content = "A"; marked = true }) ∷ [];
}

abbrev tagged : StatusPageSettings
tagged = record default_status_page_settings {
  head = record default_status_page_settings.head {
    meta_tags = ("og:title", "Status") ∷ ("robots", "") ∷ [];
  };
}

custom-apply_status_page_document_settings_example :
    map read_meta (filter is_custom (apply_status_page_document_settings tagged old_document).head)
    ≡ wanted tagged.head.meta_tags
custom-apply_status_page_document_settings_example =
    custom-apply_status_page_document_settings tagged old_document

abbrev theme_modules : List (String × String)
theme_modules =
    ("../themes/nord.css", "/assets/nord.css")
    ∷ ("../themes/default.css", "/assets/default.css")
    ∷ ("../themes/.css", "/assets/none.css")
    ∷ []

-- names are in lower case already
abbrev lower_case : String → String
lower_case s = s

abbrev by_length : String → String → Bool
by_length a b = leb (utf16_length a) (utf16_length b)

ne_nil {ℓ} : {A : Type ℓ} (xs : List A) → ltb 0 (length xs) ≡ true → xs ≢ []
ne_nil xs h e = ground (arith, h, ap length e)

presets_ne_nil : (get_theme_presets lower_case by_length theme_modules).presets ≢ []
unfolding get_theme_presets get_preset_href_map theme_file_pattern preset_before utf16_length sort
    normalize_theme_file_key file_name_of set_href
presets_ne_nil = ne_nil (get_theme_presets lower_case by_length theme_modules).presets refl

selection-IsKnown_example :
    let presets = (get_theme_presets lower_case by_length theme_modules).presets in
    let selected = normalize_theme_preset_selection lower_case "Dracula" presets in
    (theme_file_pattern selected ≡ true)
    × (is_some (href_of selected (get_preset_href_map lower_case theme_modules)) ≡ true)
selection-IsKnown_example =
    selection-IsKnown lower_case by_length theme_modules "Dracula" presets_ne_nil

abbrev loads : String → Bool
loads href = is_truthy href

load_theme_preset_stylesheet-reports_example :
    let presets = (get_theme_presets lower_case by_length theme_modules).presets in
    let r = load_theme_preset_stylesheet loads lower_case theme_modules "nord" presets none in
    reports
      (get_preset_href_map lower_case theme_modules)
      (normalize_theme_preset_selection lower_case "nord" presets)
      (normalize_theme_preset_selection lower_case default_theme_preset presets)
      r.result
      r.link.loaded_preset
    ≡ true
load_theme_preset_stylesheet-reports_example =
    load_theme_preset_stylesheet-reports loads lower_case theme_modules "nord"
      (get_theme_presets lower_case by_length theme_modules).presets none

-- a body whose page is 0
abbrev envelope : Json
envelope = obj (
    field "items" (arr nil) (
      field "total" (number (record { negative = false; digits = 0; scale = 0 }))
        (field "page" (number (record { negative = false; digits = 0; scale = 0 })) end)))

finish_fetch-HasPages_example :
    let next = finish_fetch (ok envelope) (begin_fetch first_state) in
    HasPages next × (next.loading ≡ false) × (is_some next.error ≡ is_thrown (ok envelope))
unfolding is_falsy
finish_fetch-HasPages_example = finish_fetch-HasPages (ok envelope) first_state (refl, refl)
