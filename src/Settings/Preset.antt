-- ===== src/Settings/Preset.antt =====
-- The preset's name in normalizeStatusPageSettings of apps/web/src/lib/statusPageSettings.ts.
use Prim.Native.String.{String, [], ◌∷◌, ◌++◌}
use mathlib.Core.Path.{◌≡◌, refl, ap, ◌∙◌}
use mathlib.Core.Logic.{inl, inr}
use mathlib.Core.Bool.{true}
use mathlib.Core.Option.{Option, none, some}
use native.Mathlib.Omega.{arith}
use text.Mathlib.TextLemmas.{nil-append, cons-append}
use text.Mathlib.TextPositions.{eq_refl}
use statora.Prelude.Tests.{if◌then◌else◌, Bool-cases}
use statora.Prelude.Text.{
  is_truthy, or_text, is_space, trim_start, trim_end, trim, ends_with, StartsClean, trim_idem,
  trim_start_of_StartsClean, trim-StartsClean,
}

abbrev pub default_theme_preset : String
default_theme_preset = "default.css"

-- `settings.theme?.preset?.trim() || DEFAULT_THEME_PRESET`
unfoldable pub preset_or_default : Option String → String
preset_or_default none = default_theme_preset
preset_or_default (some preset) = or_text (trim preset) default_theme_preset

-- `preset.endsWith('.css') ? preset : …`
unfoldable pub with_extension : String → String
with_extension preset = if ends_with ".css" preset then preset else preset ++ ".css"

unfoldable pub normalize_preset : Option String → String
normalize_preset preset = with_extension (preset_or_default preset)

ends_with_self : (t : String) → ends_with t t ≡ true
unfolding ends_with
ends_with_self [] = refl
ends_with_self (c ∷ s) = rw (eq_refl (c ∷ s))

ends_with-append : (s t : String) → ends_with t (s ++ t) ≡ true
unfolding ends_with
ends_with-append [] t = rw nil-append (ends_with_self t)
ends_with-append (c ∷ s) t = rw cons-append (ground (arith, ends_with-append s t))

append_truthy : (s : String) → is_truthy (s ++ ".css") ≡ true
append_truthy [] = refl
append_truthy (c ∷ s) = rw cons-append

trim_end-append : (s : String) → trim_end (s ++ ".css") ≡ s ++ ".css"
unfolding trim_end is_space
trim_end-append [] = refl
trim_end-append (c ∷ s) = rw cons-append (rw (trim_end-append s) (rw (append_truthy s)))

-- a name that was trimmed and is not empty
abbrev pub IsName : String → Type 0
IsName s = (is_truthy s ≡ true) × StartsClean s × (trim s ≡ s)

preset_or_default-IsName : (o : Option String) → IsName (preset_or_default o)
unfolding preset_or_default trim trim_start trim_end is_space
preset_or_default-IsName none = (refl, refl, refl)
preset_or_default-IsName (some p) = named (trim p) (trim-StartsClean p) (trim_idem p)
  where
    named : (s : String) → StartsClean s → trim s ≡ s → IsName (or_text s default_theme_preset)
    named [] clean same = (refl, refl, refl)
    named (c ∷ s) clean same = (refl, clean, same)

StartsClean-append : (s : String) → IsName s → StartsClean (s ++ ".css")
StartsClean-append [] (named, clean, same) = cc
StartsClean-append (c ∷ s) (named, clean, same) = rw cons-append clean

trim-append : (s : String) → IsName s → trim (s ++ ".css") ≡ s ++ ".css"
unfolding trim
trim-append s h =
    ap trim_end (trim_start_of_StartsClean (s ++ ".css") (StartsClean-append s h))
    ∙ trim_end-append s

or_text_of_truthy : (s d : String) → is_truthy s ≡ true → or_text s d ≡ s
or_text_of_truthy [] d h = cc
or_text_of_truthy (c ∷ s) d h = refl

-- The name of a preset ends in ".css", whatever was asked for.
pub normalize_preset-ends_with : (o : Option String) → ends_with ".css" (normalize_preset o) ≡ true
unfolding normalize_preset with_extension
normalize_preset-ends_with o = elim (Bool-cases (ends_with ".css" (preset_or_default o))) [
  | inl there ↦ rw there there
  | inr missing ↦ rw missing (ends_with-append (preset_or_default o) ".css")
]

with_extension_idem : (s : String) → with_extension (with_extension s) ≡ with_extension s
unfolding with_extension
with_extension_idem s = elim (Bool-cases (ends_with ".css" s)) [
  | inl there ↦ rw there (rw there)
  | inr missing ↦ rw missing (rw (ends_with-append s ".css"))
]

preset_or_default-with_extension :
    (s : String) → IsName s → preset_or_default (some (with_extension s)) ≡ with_extension s
unfolding preset_or_default with_extension
preset_or_default-with_extension s h = elim (Bool-cases (ends_with ".css" s)) [
  | inl there ↦ rw there (rw (h.2) (or_text_of_truthy s _ h.0))
  | inr missing ↦ rw missing (rw (trim-append s h) (or_text_of_truthy _ _ (append_truthy s)))
]

-- A normalised name is left as it is.
pub normalize_preset_idem :
    (o : Option String) → normalize_preset (some (normalize_preset o)) ≡ normalize_preset o
unfolding normalize_preset
normalize_preset_idem o =
    ap with_extension
      (preset_or_default-with_extension (preset_or_default o) (preset_or_default-IsName o))
    ∙ with_extension_idem (preset_or_default o)

pub normalize_preset-default : normalize_preset (some default_theme_preset) ≡ default_theme_preset
unfolding normalize_preset preset_or_default with_extension ends_with trim
normalize_preset-default = refl
