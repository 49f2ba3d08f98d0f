-- ===== src/Utils/DateKeys.antt =====
-- Lemmas on the keys that formatLocalDateKey of apps/web/src/lib/utils.ts makes.
use Prim.Native.Nat.{ℕ, ◌+◌}
use Prim.Native.Char.{Char, code}
use Prim.Native.String.{String, [], ◌∷◌, ◌++◌}
use mathlib.Core.Path.{◌≡◌, refl, sym, ap, ◌∙◌}
use mathlib.Core.Logic.{inl, inr}
use mathlib.Core.Bool.{Bool, true, false, ◌&&◌}
use mathlib.Core.Option.{Option, none, some}
use mathlib.Core.List.{List, map}
use native.Mathlib.Omega.{arith}
use text.Mathlib.TextLemmas.{nil-append, cons-append}
use statora.Prelude.Tests.{ltb, nat_eq, Bool-cases, and-cases}
use statora.Prelude.Equality.{◌==◌, String_eq, ==-refl}
use statora.Prelude.Decimal.{
  is_digit, all_digits, read_digits, print, print-all_digits, read_digits-print,
}
use statora.Prelude.Reading.{split_on, Lacks, split_on-Lacks, split_on-append}
use statora.Utils.Dates.{LocalDate, pad2, format_local_date_key}

digits-no_dash : (s : String) → all_digits s ≡ true → Lacks "-" s
digits-no_dash [] h = tt
digits-no_dash (c ∷ s) h =
    let both = and-cases (is_digit c) (all_digits s) h in
    (no_dash c both.0, digits-no_dash s both.1)
  where
    no_dash : (d : Char) → is_digit d ≡ true → nat_eq (code d) (code "-") ≡ false
    no_dash d k = ground arith

print-no_dash : (n : ℕ) → Lacks "-" (print n)
print-no_dash n = digits-no_dash (print n) (print-all_digits n)

pad2-no_dash : (n : ℕ) → Lacks "-" (pad2 n)
pad2-no_dash n = elim (Bool-cases (ltb n 10)) [
  | inl small ↦ rw small (rw (cons-append, nil-append) (refl, print-no_dash n))
  | inr large ↦ rw large (print-no_dash n)
]

read-pad2 : (n : ℕ) → read_digits 0 (pad2 n) ≡ n
read-pad2 n = elim (Bool-cases (ltb n 10)) [
  | inl small ↦ rw small (rw (cons-append, nil-append) (unfold read_digits in read_digits-print n))
  | inr large ↦ rw large (read_digits-print n)
]

dashed : (s : String) → "-" ++ s ≡ "-" ∷ s
dashed s = rw (cons-append, nil-append) refl

-- the numbers between the dashes of a key
abbrev numbers_in : String → List ℕ
numbers_in key = map (read_digits 0) (split_on "-" key)

numbers_in-format :
    (d : LocalDate)
    → numbers_in (format_local_date_key (some d))
      ≡ List.◌∷◌ d.year (List.◌∷◌ (d.month + 1) (List.◌∷◌ d.day List.[]))
unfolding format_local_date_key
numbers_in-format d =
    let days = pad2 d.day in
    let months = pad2 (d.month + 1) in
    rw (dashed (months ++ "-" ++ days), dashed days)
      (rw (split_on-append "-" (print d.year) (months ++ "-" ∷ days) (print-no_dash d.year)) (
        rw (split_on-append "-" months days (pad2-no_dash (d.month + 1))) (
          rw (split_on-Lacks "-" days (pad2-no_dash d.day))
            (rw (read_digits-print d.year, read-pad2 (d.month + 1), read-pad2 d.day) refl))))

-- the date is that of the day
abbrev pub is_on : Option LocalDate → LocalDate → Bool
is_on none d = false
is_on (some e) d = nat_eq e.year d.year && nat_eq e.month d.month && nat_eq e.day d.day

abbrev year_in : List ℕ → ℕ
year_in List.[] = 0
year_in (List.◌∷◌ y ns) = y

abbrev rest_in : List ℕ → List ℕ
rest_in List.[] = List.[]
rest_in (List.◌∷◌ y ns) = ns

is_on-keys :
    (o : Option LocalDate) (d : LocalDate)
    → format_local_date_key o ≡ format_local_date_key (some d)
    → is_on o d ≡ true
is_on-keys none d e =
    let numbers = sym (numbers_in-format d) ∙ sym (ap numbers_in e) in
    let month : d.month + 1 ≡ 0 =
      ap (λ ns. year_in (rest_in ns)) numbers
      ∙ unfold format_local_date_key read_digits split_on in refl in
    absurd (omega arith)
is_on-keys (some c) d e =
    let numbers = sym (numbers_in-format c) ∙ ap numbers_in e ∙ numbers_in-format d in
    let year : c.year ≡ d.year = ap year_in numbers in
    let month : c.month + 1 ≡ d.month + 1 = ap (λ ns. year_in (rest_in ns)) numbers in
    let day : c.day ≡ d.day = ap (λ ns. year_in (rest_in (rest_in ns))) numbers in ground arith

keys-is_on :
    (o : Option LocalDate) (d : LocalDate)
    → is_on o d ≡ true
    → format_local_date_key o ≡ format_local_date_key (some d)
unfolding format_local_date_key
keys-is_on none d h = cc
keys-is_on (some c) d h =
    let year : c.year ≡ d.year = ground arith in
    let month : c.month ≡ d.month = ground arith in
    let day : c.day ≡ d.day = ground arith in rw (year, month, day) refl

-- Two keys are the same exactly if they are those of the same day.
pub ==-format_local_date_key :
    (o : Option LocalDate) (d : LocalDate)
    → (format_local_date_key o == format_local_date_key (some d)) ≡ is_on o d
==-format_local_date_key o d = elim (Bool-cases (is_on o d)) [
  | inl on ↦ rw (on, keys-is_on o d on) (==-refl (format_local_date_key (some d)))
  | inr off ↦ elim (Bool-cases (format_local_date_key o == format_local_date_key (some d))) [
    | inl same ↦
        let e =
          (String_eq.same_iff (format_local_date_key o) (format_local_date_key (some d))).0 same in
        let on = is_on-keys o d e in cc
    | inr other ↦ rw (other, off) refl
  ]
]
