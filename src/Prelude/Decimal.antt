-- ===== src/Prelude/Decimal.antt =====
-- `String(n)` of a natural number, and what `Number.parseInt(s, 10)` reads.
use Prim.Native.Nat.{ℕ, zero, suc, ◌+◌, ◌-◌, ◌*◌, ◌/◌, ◌%◌, ◌≤◌, ◌<◌}
use Prim.Native.Char.{Char, code}
use Prim.Native.String.{String, [], ◌∷◌, ◌++◌, char_at}
use mathlib.Core.Path.{◌≡◌, refl, ◌∙◌}
use mathlib.Core.Logic.{inl, inr}
use mathlib.Core.Bool.{Bool, true, ◌&&◌}
use native.Mathlib.Omega.{arith}
use text.Mathlib.TextLemmas.{nil-append, cons-append}
use statora.Prelude.Text.{is_truthy}
use statora.Prelude.Tests.{ltb, leb, nat_eq, if◌then◌else◌, Bool-cases, ltb→lt}

abbrev pub digit : ℕ → Char
digit d = char_at "0123456789" d

abbrev pub is_digit : Char → Bool
is_digit c = leb b'0' (code c) && leb (code c) b'9'

print_from : ℕ → ℕ → String
print_from zero n = digit n ∷ []
print_from (suc f) n =
    let more = print_from f (n / 10) ++ digit (n % 10) ∷ [] in
    if ltb n 10 then digit n ∷ [] else more

-- A number has fewer digits than it counts, so `n` rounds are enough.
unfoldable pub print : ℕ → String
unfolding print_from
print n = print_from n n

-- the digits that a text begins with, read after those of `acc`
unfoldable pub read_digits : ℕ → String → ℕ
read_digits acc [] = acc
read_digits acc (c ∷ s) =
    let rest = read_digits (acc * 10 + (code c - 48)) s in if is_digit c then rest else acc

abbrev pub all_digits : String → Bool
all_digits [] = true
all_digits (c ∷ s) = is_digit c && all_digits s

digit_ok : ℕ → Bool
digit_ok d = is_digit (digit d) && nat_eq (code (digit d)) (48 + d)

digit_table : (d : ℕ) → d < 10 → digit_ok d ≡ true
unfolding digit_ok
digit_table zero h = refl
digit_table (suc zero) h = refl
digit_table (suc (suc zero)) h = refl
digit_table (suc (suc (suc zero))) h = refl
digit_table (suc (suc (suc (suc zero)))) h = refl
digit_table (suc (suc (suc (suc (suc zero))))) h = refl
digit_table (suc (suc (suc (suc (suc (suc zero)))))) h = refl
digit_table (suc (suc (suc (suc (suc (suc (suc zero))))))) h = refl
digit_table (suc (suc (suc (suc (suc (suc (suc (suc zero)))))))) h = refl
digit_table (suc (suc (suc (suc (suc (suc (suc (suc (suc zero))))))))) h = refl
digit_table (suc (suc (suc (suc (suc (suc (suc (suc (suc (suc d)))))))))) h = absurd (omega arith)

pub digit-is_digit : (d : ℕ) → d < 10 → is_digit (digit d) ≡ true
unfolding digit_ok
digit-is_digit d h = ground (arith, digit_table d h)

pub code-digit : (d : ℕ) → d < 10 → code (digit d) ≡ 48 + d
unfolding digit_ok
code-digit d h = ground (arith, digit_table d h)

read_digits-digit :
    (acc d : ℕ) (s : String) → d < 10 → read_digits acc (digit d ∷ s) ≡ read_digits (acc * 10 + d) s
unfolding read_digits
read_digits-digit acc d s h = rw (digit-is_digit d h, code-digit d h) (rw (sub_48 d))
  where
    sub_48 : (e : ℕ) → 48 + e - 48 ≡ e
    sub_48 e = omega arith

read_digits-append :
    (acc d : ℕ) (s : String)
    → all_digits s ≡ true
    → d < 10
    → read_digits acc (s ++ digit d ∷ []) ≡ read_digits acc s * 10 + d
unfolding read_digits
read_digits-append acc d [] h lt = rw nil-append (read_digits-digit acc d [] lt)
read_digits-append acc d (c ∷ s) h lt =
    rw cons-append (ground (arith, read_digits-append (acc * 10 + (code c - 48)) d s))

all_digits-append :
    (d : ℕ) (s : String) → all_digits s ≡ true → d < 10 → all_digits (s ++ digit d ∷ []) ≡ true
all_digits-append d [] h lt = rw nil-append (rw (digit-is_digit d lt))
all_digits-append d (c ∷ s) h lt = rw cons-append (ground (arith, all_digits-append d s))

print_from-all_digits : (f n : ℕ) → n ≤ f → all_digits (print_from f n) ≡ true
unfolding print_from
print_from-all_digits zero n h = ground (arith, digit-is_digit n)
print_from-all_digits (suc f) n h = elim (Bool-cases (ltb n 10)) [
  | inl small ↦ rw small (ground (arith, digit-is_digit n))
  | inr large ↦ rw large (
      all_digits-append (n % 10) (print_from f (n / 10))
        (print_from-all_digits f (n / 10) (ground arith)) (omega arith))
]

read_digits-print_from : (f n : ℕ) → n ≤ f → read_digits 0 (print_from f n) ≡ n
unfolding print_from
read_digits-print_from zero n h =
    read_digits-digit 0 n [] (omega arith) ∙ unfold read_digits in omega arith
read_digits-print_from (suc f) n h = elim (Bool-cases (ltb n 10)) [
  | inl small ↦
      rw small (read_digits-digit 0 n [] (ltb→lt n 10 small) ∙ unfold read_digits in omega arith)
  | inr large ↦ rw large (
      read_digits-append 0 (n % 10) (print_from f (n / 10))
        (print_from-all_digits f (n / 10) (ground arith)) (omega arith)
      ∙ ground (arith, read_digits-print_from f (n / 10)))
]

-- A printed number consists of digits.
pub print-all_digits : (n : ℕ) → all_digits (print n) ≡ true
unfolding print
print-all_digits n = print_from-all_digits n n (omega arith)

-- The digits of a printed number read back as the number.
pub read_digits-print : (n : ℕ) → read_digits 0 (print n) ≡ n
unfolding print
read_digits-print n = read_digits-print_from n n (omega arith)

snoc_truthy : (s : String) (d : Char) → is_truthy (s ++ d ∷ []) ≡ true
snoc_truthy [] d = rw nil-append
snoc_truthy (c ∷ s) d = rw cons-append

print_from_truthy : (f n : ℕ) → is_truthy (print_from f n) ≡ true
unfolding print_from
print_from_truthy zero n = refl
print_from_truthy (suc f) n = elim (Bool-cases (ltb n 10)) [
  | inl small ↦ rw small
  | inr large ↦ rw large (snoc_truthy (print_from f (n / 10)) (digit (n % 10)))
]

-- A printed number is not empty.
pub print_truthy : (n : ℕ) → is_truthy (print n) ≡ true
unfolding print
print_truthy n = print_from_truthy n n

print_tests : (print 0 ≡ "0") × (print 7 ≡ "7") × (print 2026 ≡ "2026")
unfolding print
print_tests = (refl, refl, refl)
