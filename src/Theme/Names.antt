-- ===== src/Theme/Names.antt =====
-- apps/web/src/lib/themePresetLoader.ts: names of theme files and their labels.
use Prim.Native.Char.{Char, code}
use Prim.Native.String.{String, [], ◌∷◌, ◌++◌}
use mathlib.Core.Path.{◌≡◌, refl}
use mathlib.Core.Bool.{Bool, true, false, ◌&&◌, ◌||◌}
use mathlib.Core.List.{List}
use mathlib.Core.List
use statora.Prelude.Tests.{leb, nat_eq, if◌then◌else◌}
use statora.Prelude.Equality.{◌==◌, String_eq}
use statora.Prelude.Lists.{filter}
use statora.Prelude.Text.{is_truthy, trim, ends_with, upper, lower}
use statora.Settings.Preset.{default_theme_preset}

-- the ASCII letters in lower case, as a pattern with the flag `i` compares them
unfoldable pub ascii_lower : String → String
unfolding lower
ascii_lower [] = []
ascii_lower (c ∷ s) = lower c ∷ ascii_lower s

-- `s.replace(/\.css$/i, '')`
unfoldable pub without_ext : String → String
unfolding ascii_lower
without_ext [] = []
without_ext (c ∷ s) =
    let rest = without_ext s in if ascii_lower (c ∷ s) == ".css" then [] else c ∷ rest

-- puts a character in front of the first part
abbrev pub extend_first : Char → List String → List String
extend_first c List.[] = List.◌∷◌ (c ∷ []) List.[]
extend_first c (List.◌∷◌ part parts) = List.◌∷◌ (c ∷ part) parts

-- `s.split('-')`
unfoldable pub split_dashes : String → List String
split_dashes [] = List.◌∷◌ [] List.[]
split_dashes (c ∷ s) =
    let rest = split_dashes s in
    if nat_eq (code c) b'-' then List.◌∷◌ [] rest else extend_first c rest

-- Labels are made of names that match the pattern below, whose first letters are ASCII.
unfoldable pub capitalize : String → String
unfolding upper
capitalize [] = []
capitalize (c ∷ s) = upper c ∷ s

-- `parts.join(' ')`
unfoldable pub join_spaces : List String → String
join_spaces List.[] = ""
join_spaces (List.◌∷◌ s List.[]) = s
join_spaces (List.◌∷◌ s (List.◌∷◌ t ts)) = s ++ " " ++ join_spaces (List.◌∷◌ t ts)

unfoldable pub to_label : String → String
unfolding without_ext split_dashes capitalize join_spaces
to_label theme_file =
    join_spaces (List.map capitalize (filter is_truthy (split_dashes (without_ext theme_file))))

unfoldable pub normalize_theme_file_key : (String → String) → String → String
unfolding trim ends_with
normalize_theme_file_key lower_case input =
    let trimmed = lower_case (trim input) in
    if is_truthy trimmed
    then if ends_with ".css" trimmed then trimmed else trimmed ++ ".css"
    else default_theme_preset

-- `[a-z0-9-]`
abbrev pub in_pattern : Char → Bool
in_pattern c =
    (leb b'a' (code c) && leb (code c) b'z')
    || (leb b'0' (code c) && leb (code c) b'9')
    || nat_eq (code c) b'-'

-- what may follow the first character of a name
unfoldable pub pattern_rest : String → Bool
pattern_rest [] = false
pattern_rest (c ∷ s) = (c ∷ s) == ".css" || (in_pattern c && pattern_rest s)

-- `/^[a-z0-9-]+\.css$/`
unfoldable pub theme_file_pattern : String → Bool
unfolding pattern_rest
theme_file_pattern [] = false
theme_file_pattern (c ∷ s) = in_pattern c && pattern_rest s

pub pattern_truthy : (name : String) → theme_file_pattern name ≡ true → is_truthy name ≡ true
unfolding theme_file_pattern
pattern_truthy [] h = h
pattern_truthy (c ∷ s) h = refl

unfoldable pub has_slash : String → Bool
has_slash [] = false
has_slash (c ∷ s) = nat_eq (code c) b'/' || has_slash s

-- `path.split('/').pop() || ''`
unfoldable pub file_name_of : String → String
unfolding has_slash
file_name_of [] = []
file_name_of (c ∷ s) = let rest = file_name_of s in if has_slash (c ∷ s) then rest else c ∷ s

to_label_test : to_label "deep-ocean--blue.css" ≡ "Deep Ocean Blue"
unfolding to_label upper lower
to_label_test = refl

file_name_of_test : file_name_of "../themes/nord.css" ≡ "nord.css"
unfolding file_name_of
file_name_of_test = refl
