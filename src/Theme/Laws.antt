-- ===== src/Theme/Laws.antt =====
-- Lemmas on the catalogue and the selection of apps/web/src/lib/themePresetLoader.ts.
use Prim.Native.String.{String}
use mathlib.Core.Path.{◌≡◌, refl, subst}
use mathlib.Core.Logic.{◌≢◌, inl, inr}
use mathlib.Core.Bool.{Bool, true}
use mathlib.Core.List.{List, [], ◌∷◌, map}
use native.Mathlib.Omega.{arith}
use text.Mathlib.TextEquality.{eq_iff}
use statora.Prelude.Tests.{is_some, Bool-cases}
use statora.Prelude.Equality.{◌==◌, String_eq}
use statora.Prelude.Lists.{filter, All, All-map, All-filter, filter-All, map-All, All-intro}
use statora.Prelude.Sort.{sort-All, IsSorted, IsOrder, sort-IsSorted}
use statora.Prelude.Text.{is_truthy}
use statora.Types.Settings.{StatusPageThemePresetSummary}
use statora.Settings.Preset.{default_theme_preset}
use statora.Theme.Names.{to_label, normalize_theme_file_key, theme_file_pattern, pattern_truthy}
use statora.Theme.{
  Hrefs, href_of, find_preset_by_key, first_key, preset_before, get_preset_href_map,
  get_theme_presets, normalize_theme_preset_selection,
}

-- the comparison is consistent on all labels, and the order of the presets on all presets
abbrev pub AnyLabel : String → Type 0
AnyLabel label = Unit

abbrev AnyPreset : StatusPageThemePresetSummary → Type 0
AnyPreset preset = Unit

preset_before-IsOrder :
    (locale_compare : String → String → Bool)
    → IsOrder AnyLabel locale_compare
    → IsOrder AnyPreset (preset_before locale_compare)
unfolding preset_before
preset_before-IsOrder locale_compare o = record {
  total = λ x y p q e. ground (arith, e, o.total x.label y.label tt tt);
  trans = λ x y z p q r e f. ground (arith, e, f, o.trans x.label y.label z.label tt tt tt);
}

-- the map has a value under each of its keys
keys-href_of :
    (hrefs : Hrefs) → All (λ key. is_some (href_of key hrefs) ≡ true) (map (λ entry. entry.0) hrefs)
unfolding href_of
keys-href_of [] = tt
keys-href_of ((k, href) ∷ hrefs) = (
  ground (arith, eq_iff k k),
  All-map (λ key. is_some (href_of key hrefs) ≡ true)
      (λ key. is_some (href_of key ((k, href) ∷ hrefs)) ≡ true) (λ key found. ground (arith, found))
      (map (λ entry. entry.0) hrefs) (keys-href_of hrefs),
)

module _ (q : String → Bool) where
  found-All :
      (presets : List StatusPageThemePresetSummary) (key : String)
      → All (λ preset. q preset.key ≡ true) presets
      → is_some (find_preset_by_key presets key) ≡ true
      → q key ≡ true
  unfolding find_preset_by_key
  found-All [] key h e = cc
  found-All (preset ∷ presets) key (known, h) e = elim (Bool-cases (preset.key == key)) [
    | inl same ↦ subst (λ k. q k ≡ true) ((eq_iff preset.key key).0 same) known
    | inr another ↦ found-All presets key h (ground (arith, e, another))
  ]

  first_key-All :
      (presets : List StatusPageThemePresetSummary)
      → presets ≢ []
      → All (λ preset. is_truthy preset.key ≡ true) presets
      → All (λ preset. q preset.key ≡ true) presets
      → q (first_key presets) ≡ true
  first_key-All [] h t q = elim (h refl) [ ]
  first_key-All (preset ∷ presets) h (t, ts) (known, ks) = rw t known

  -- what is chosen is a key of the presets
  selection-All :
      (lower_case : String → String) (requested : String)
      (presets : List StatusPageThemePresetSummary)
      → presets ≢ []
      → All (λ preset. is_truthy preset.key ≡ true) presets
      → All (λ preset. q preset.key ≡ true) presets
      → q (normalize_theme_preset_selection lower_case requested presets) ≡ true
  unfolding normalize_theme_preset_selection
  selection-All lower_case requested presets h t known =
      let wanted = normalize_theme_file_key lower_case requested in
      elim (Bool-cases (is_some (find_preset_by_key presets wanted))) [
        | inl found ↦ rw found (found-All presets wanted known found)
        | inr missing ↦
            elim (Bool-cases (is_some (find_preset_by_key presets default_theme_preset))) [
              | inl found ↦ rw (missing, found) (found-All presets default_theme_preset known found)
              | inr absent ↦ rw (missing, absent) (first_key-All presets h t known)
            ]
      ]

module _ (lower_case : String → String) (locale_compare : String → String → Bool)
    (modules : List (String × String)) where
  -- what holds of the names of the files with an address holds of the keys of the catalogue
  presets-All :
      (q : String → Bool)
      → All
          (λ name. q name ≡ true)
          (filter theme_file_pattern
            (map (λ entry. entry.0) (get_preset_href_map lower_case modules)))
      → All
          (λ preset. q preset.key ≡ true)
          (get_theme_presets lower_case locale_compare modules).presets
  unfolding get_theme_presets
  presets-All q h =
      sort-All (preset_before locale_compare) (λ preset. q preset.key ≡ true) _
        (map-All (λ preset. q preset.key ≡ true)
          (λ name. record { key = name; label = to_label name }) _ h)

  -- The catalogue is in order: the default preset stands before all others, which follow by their
  -- labels, if the language compares labels consistently.
  pub get_theme_presets-IsSorted :
      IsOrder AnyLabel locale_compare
      → IsSorted
          (preset_before locale_compare)
          (get_theme_presets lower_case locale_compare modules).presets
  unfolding get_theme_presets
  get_theme_presets-IsSorted o =
      sort-IsSorted (preset_before-IsOrder locale_compare o) _ (All-intro AnyPreset _ (λ p. tt))

  -- What is chosen from a catalogue that is not empty, whatever was asked for, is a preset of it
  -- and has an address.
  pub selection-IsKnown :
      (requested : String)
      → (get_theme_presets lower_case locale_compare modules).presets ≢ []
      → let presets = (get_theme_presets lower_case locale_compare modules).presets in
        let selected = normalize_theme_preset_selection lower_case requested presets in
        (theme_file_pattern selected ≡ true)
        × (is_some (href_of selected (get_preset_href_map lower_case modules)) ≡ true)
  selection-IsKnown requested h =
      let presets = (get_theme_presets lower_case locale_compare modules).presets in
      let hrefs = get_preset_href_map lower_case modules in
      let names = filter theme_file_pattern (map (λ entry. entry.0) hrefs) in
      let fit = presets-All theme_file_pattern (filter-All theme_file_pattern _) in
      let held =
        presets-All (λ key. is_some (href_of key hrefs))
          (All-filter (λ key. is_some (href_of key hrefs) ≡ true) theme_file_pattern _
            (keys-href_of hrefs)) in
      let named = presets-All is_truthy (
        All-map (λ name. theme_file_pattern name ≡ true) (λ name. is_truthy name ≡ true)
          pattern_truthy names (filter-All theme_file_pattern _)) in
      (
        selection-All theme_file_pattern lower_case requested presets h named fit,
        selection-All (λ key. is_some (href_of key hrefs)) lower_case requested presets h named
            held,
      )
