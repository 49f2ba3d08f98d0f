-- ===== src/Prelude/Reading.antt =====
-- `Number.parseInt(s, 10)`, and lists of numbers in a text with commas.
use Prim.Native.Nat.{ℕ}
use Prim.Native.Char.{Char, code}
use Prim.Native.String.{String, [], ◌∷◌, ◌++◌}
use mathlib.Core.Path.{◌≡◌, refl, ap, ◌∙◌}
use mathlib.Core.Bool.{true, false}
use mathlib.Core.List.{List, map}
use native.Mathlib.Omega.{arith}
use text.Mathlib.TextLemmas.{nil-append, cons-append}
use statora.Prelude.Tests.{ltb, nat_eq, nat_eq_refl, if◌then◌else◌, and-cases}
use statora.Prelude.Decimal.{
  all_digits, is_digit, read_digits, print, print-all_digits, print_truthy, read_digits-print,
}
use statora.Prelude.Text.{
  is_space, is_truthy, trim, trim_start, trim_end, trim_start_of_StartsClean,
}

-- what `Number.parseInt` answers; numbers past 2 ^ 53 are not rounded here
pub data Reading : Type 0 where
  nan : Reading
  minus plus : ℕ → Reading

abbrev negate : Reading → Reading
negate nan = nan
negate (minus n) = plus n
negate (plus n) = minus n

unsigned : String → Reading
unsigned [] = nan
unsigned (c ∷ s) = if is_digit c then plus (read_digits 0 (c ∷ s)) else nan

signed : String → Reading
signed [] = nan
signed (c ∷ s) =
    if nat_eq (code c) b'-'
    then negate (unsigned s)
    else if nat_eq (code c) b'+'
    then unsigned s
    else unsigned (c ∷ s)

-- `Number.parseInt(value, 10)`
unfoldable pub parse_int : String → Reading
unfolding trim_start unsigned signed read_digits
parse_int value = signed (trim_start value)

pub parse_int-digits :
    (s : String) → all_digits s ≡ true → is_truthy s ≡ true → parse_int s ≡ plus (read_digits 0 s)
unfolding parse_int is_space
parse_int-digits [] h t = cc
parse_int-digits (c ∷ s) h t = ground arith

abbrev onto_first : Char → List String → List String
onto_first c List.[] = List.◌∷◌ (c ∷ []) List.[]
onto_first c (List.◌∷◌ s ss) = List.◌∷◌ (c ∷ s) ss

-- `s.split(sep)`, at one character
unfoldable pub split_on : Char → String → List String
split_on sep [] = List.◌∷◌ [] List.[]
split_on sep (c ∷ s) =
    let rest = split_on sep s in
    if nat_eq (code c) (code sep) then List.◌∷◌ [] rest else onto_first c rest

-- the character is not in the text
abbrev pub Lacks : Char → String → Type 0
Lacks sep [] = Unit
Lacks sep (c ∷ s) = (nat_eq (code c) (code sep) ≡ false) × Lacks sep s

pub split_on-Lacks : (sep : Char) (s : String) → Lacks sep s → split_on sep s ≡ List.◌∷◌ s List.[]
unfolding split_on
split_on-Lacks sep [] h = refl
split_on-Lacks sep (c ∷ s) h = rw (split_on-Lacks sep s h.1) (rw h.0)

pub split_on-append :
    (sep : Char) (s r : String)
    → Lacks sep s
    → split_on sep (s ++ sep ∷ r) ≡ List.◌∷◌ s (split_on sep r)
unfolding split_on
split_on-append sep [] r h = rw nil-append (rw (nat_eq_refl (code sep)))
split_on-append sep (c ∷ s) r h = rw cons-append (rw (split_on-append sep s r h.1) (rw h.0))

-- `texts.join(',')`
abbrev pub join_commas : List String → String
join_commas List.[] = ""
join_commas (List.◌∷◌ s List.[]) = s
join_commas (List.◌∷◌ s (List.◌∷◌ t ts)) = s ++ "," ∷ join_commas (List.◌∷◌ t ts)

abbrev keep : Reading → List ℕ → List ℕ
keep nan ns = ns
keep (minus n) ns = ns
keep (plus n) ns = if ltb 0 n then List.◌∷◌ n ns else ns

-- `.filter((v) => Number.isFinite(v) && v > 0)`
unfoldable pub keep_positive : List Reading → List ℕ
keep_positive List.[] = List.[]
keep_positive (List.◌∷◌ r rs) = keep r (keep_positive rs)

-- the numbers that stand between the commas of a text, those that are positive
unfoldable pub read_numbers : String → List ℕ
unfolding split_on parse_int trim keep_positive
read_numbers text = keep_positive (map (λ v. parse_int (trim v)) (split_on "," text))

digit-comma : (c : Char) → is_digit c ≡ true → nat_eq (code c) (code ",") ≡ false
digit-comma c h = ground arith

digit-is_space : (c : Char) → is_digit c ≡ true → is_space c ≡ false
unfolding is_space
digit-is_space c h = ground arith

digits-Lacks : (s : String) → all_digits s ≡ true → Lacks "," s
digits-Lacks [] h = tt
digits-Lacks (c ∷ s) h =
    let both = and-cases (is_digit c) (all_digits s) h in
    (digit-comma c both.0, digits-Lacks s both.1)

last : (c : Char) (s : String) → (if is_truthy s then c ∷ s else c ∷ []) ≡ c ∷ s
last c [] = refl
last c (d ∷ s) = refl

trim_end-digits : (s : String) → all_digits s ≡ true → trim_end s ≡ s
unfolding trim_end
trim_end-digits [] h = refl
trim_end-digits (c ∷ s) h =
    let both = and-cases (is_digit c) (all_digits s) h in
    rw (trim_end-digits s both.1, digit-is_space c both.0) (last c s)

trim-digits : (s : String) → all_digits s ≡ true → trim s ≡ s
unfolding trim
trim-digits [] h = refl
trim-digits (c ∷ s) h =
    let both = and-cases (is_digit c) (all_digits s) h in
    rw (trim_start_of_StartsClean (c ∷ s) (digit-is_space c both.0)) (trim_end-digits (c ∷ s) h)

read-print : (n : ℕ) → parse_int (trim (print n)) ≡ plus n
read-print n = rw (trim-digits (print n) (print-all_digits n)) (
    parse_int-digits (print n) (print-all_digits n) (print_truthy n)
    ∙ ap plus (read_digits-print n))

-- Numbers that were printed between commas are read back, those that are positive.
pub read_numbers-join :
    (ns : List ℕ) → read_numbers (join_commas (map print ns)) ≡ keep_positive (map plus ns)
unfolding read_numbers
read_numbers-join List.[] = refl
read_numbers-join (List.◌∷◌ n List.[]) =
    rw (split_on-Lacks "," (print n) (digits-Lacks (print n) (print-all_digits n)))
      (rw (read-print n))
read_numbers-join (List.◌∷◌ n (List.◌∷◌ m ns)) =
    rw
      (split_on-append "," (print n) (join_commas (map print (List.◌∷◌ m ns)))
        (digits-Lacks (print n) (print-all_digits n)))
      (rw (read-print n) (ap (keep (plus n)) (read_numbers-join (List.◌∷◌ m ns))))
