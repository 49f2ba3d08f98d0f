-- ===== src/Prelude/Text.antt =====
-- The string methods of the language that the code uses, over the characters of a text.
use Prim.Native.Nat.{◌-◌}
use Prim.Native.Char.{Char, code}
use Prim.Native.String.{String, [], ◌∷◌, ◌++◌, char_at}
use mathlib.Core.Path.{◌≡◌, refl, sym, ap, ◌∙◌}
use mathlib.Core.Logic.{inl, inr}
use mathlib.Core.Bool.{Bool, true, false, ◌&&◌, ◌||◌}
use text.Mathlib.Text.{◌==◌}
use text.Mathlib.TextLemmas.{nil-append, cons-append}
use statora.Prelude.Tests.{leb, nat_eq, if◌then◌else◌, Bool-cases}

-- a string that is not empty is truthy
abbrev pub is_truthy : String → Bool
is_truthy [] = false
is_truthy (c ∷ s) = true

-- `s || d`
abbrev pub or_text : String → String → String
or_text [] d = d
or_text (c ∷ s) d = c ∷ s

-- white space and line ends, as `trim` and `parseInt` know them
unfoldable pub is_space : Char → Bool
is_space c =
    let n = code c in
    (leb 9 n && leb n 13)
    || nat_eq n 32
    || nat_eq n 0xa0
    || nat_eq n 0x1680
    || (leb 0x2000 n && leb n 0x200a)
    || nat_eq n 0x2028
    || nat_eq n 0x2029
    || nat_eq n 0x202f
    || nat_eq n 0x205f
    || nat_eq n 0x3000
    || nat_eq n 0xfeff

unfoldable pub trim_start : String → String
unfolding is_space
trim_start [] = []
trim_start (c ∷ s) = let rest = trim_start s in if is_space c then rest else c ∷ s

unfoldable pub trim_end : String → String
unfolding is_space
trim_end [] = []
trim_end (c ∷ s) =
    let rest = trim_end s in if is_truthy rest then c ∷ rest else if is_space c then [] else c ∷ []

-- `s.trim()`
unfoldable pub trim : String → String
unfolding trim_start trim_end
trim s = trim_end (trim_start s)

-- `s.endsWith(t)`
unfoldable pub ends_with : String → String → Bool
ends_with t [] = [] == t
ends_with t (c ∷ s) = (c ∷ s) == t || ends_with t s

-- `part.charAt(0).toUpperCase()`, `toLowerCase()`: on the letters a to z only
unfoldable pub upper : Char → Char
upper c =
    if leb b'a' (code c) && leb (code c) b'z'
    then char_at "ABCDEFGHIJKLMNOPQRSTUVWXYZ" (code c - b'a')
    else c

unfoldable pub lower : Char → Char
lower c =
    if leb b'A' (code c) && leb (code c) b'Z'
    then char_at "abcdefghijklmnopqrstuvwxyz" (code c - b'A')
    else c

-- the text does not begin with white space
abbrev pub StartsClean : String → Type 0
StartsClean [] = Unit
StartsClean (c ∷ s) = is_space c ≡ false

trim_start-StartsClean : (s : String) → StartsClean (trim_start s)
unfolding trim_start
trim_start-StartsClean [] = tt
trim_start-StartsClean (c ∷ s) = elim (Bool-cases (is_space c)) [
  | inl space ↦ rw space (trim_start-StartsClean s)
  | inr other ↦ rw other other
]

pub trim_start_of_StartsClean : (s : String) → StartsClean s → trim_start s ≡ s
unfolding trim_start
trim_start_of_StartsClean [] h = refl
trim_start_of_StartsClean (c ∷ s) h = rw h

trim_end-StartsClean : (s : String) → StartsClean s → StartsClean (trim_end s)
unfolding trim_end
trim_end-StartsClean [] h = tt
trim_end-StartsClean (c ∷ s) h = elim (Bool-cases (is_truthy (trim_end s))) [
  | inl more ↦ rw more h
  | inr last ↦ rw (last, h) h
]

trim_end_idem : (s : String) → trim_end (trim_end s) ≡ trim_end s
unfolding trim_end
trim_end_idem [] = refl
trim_end_idem (c ∷ s) = elim (Bool-cases (is_truthy (trim_end s))) [
  | inl more ↦ rw more (rw (trim_end_idem s) (rw more))
  | inr last ↦
      rw last
        (elim (Bool-cases (is_space c)) [ inl space ↦ rw space | inr other ↦ rw other (rw other) ])
]

-- trimming a second time changes nothing
pub trim_idem : (s : String) → trim (trim s) ≡ trim s
unfolding trim
trim_idem s =
    rw (trim_start_of_StartsClean (trim s) (trim_end-StartsClean _ (trim_start-StartsClean s)))
      (trim_end_idem (trim_start s))

pub trim-StartsClean : (s : String) → StartsClean (trim s)
unfolding trim
trim-StartsClean s = trim_end-StartsClean (trim_start s) (trim_start-StartsClean s)

pub append_truthy : (s t : String) → is_truthy t ≡ true → is_truthy (s ++ t) ≡ true
append_truthy [] t h = rw nil-append h
append_truthy (c ∷ s) t h = rw cons-append

-- a text that trimming leaves as it is begins with no white space, and ends with none
pub trimmed-StartsClean : (s : String) → trim s ≡ s → StartsClean s
trimmed-StartsClean s h = rw⁻¹ h (trim-StartsClean s)

pub trim_end_of_trimmed : (s : String) → trim s ≡ s → trim_end s ≡ s
unfolding trim
trim_end_of_trimmed s h =
    ap trim_end (sym (trim_start_of_StartsClean s (trimmed-StartsClean s h))) ∙ h

pub trim_end-append :
    (s t : String) → is_truthy (trim_end t) ≡ true → trim_end (s ++ t) ≡ s ++ trim_end t
unfolding trim_end
trim_end-append [] t h = rw (nil-append t) (rw (nil-append (trim_end t)))
trim_end-append (c ∷ s) t h =
    rw (cons-append c s t)
      (rw (trim_end-append s t h, append_truthy s (trim_end t) h) (rw cons-append))

pub trim_end-cons :
    (c : Char) (s : String) → is_truthy (trim_end s) ≡ true → trim_end (c ∷ s) ≡ c ∷ trim_end s
unfolding trim_end
trim_end-cons c s h = rw h
