-- ===== src/Pagination/Numbers.antt =====
-- Lemmas on parsePositiveInteger of apps/web/src/hooks/useAdminPagination.ts.
use Prim.Native.Nat.{ℕ, ◌≤◌}
use Prim.Native.String.{String}
use mathlib.Core.Path.{◌≡◌}
use mathlib.Core.Option.{Option, some}
use native.Mathlib.Omega.{arith}
use statora.Prelude.Tests.{ltb, if◌then◌else◌}
use statora.Prelude.Decimal.{print, print-all_digits, read_digits-print, print_truthy}
use statora.Prelude.Reading.{parse_int-digits}
use statora.Pagination.{parse_positive_integer}

-- A printed number is read back from a parameter, or the fallback in place of 0.
pub parse_positive_integer-print :
    (n fallback : ℕ)
    → parse_positive_integer (some (print n)) fallback ≡ (if ltb n 1 then fallback else n)
unfolding parse_positive_integer
parse_positive_integer-print n fallback =
    rw (print_truthy n, parse_int-digits (print n) (print-all_digits n) (print_truthy n))
      (rw (read_digits-print n))

-- Whatever the address says, the answer is positive if the fallback is.
pub parse_positive_integer_pos :
    (value : Option String) (fallback : ℕ)
    → 1 ≤ fallback
    → 1 ≤ parse_positive_integer value fallback
unfolding parse_positive_integer
parse_positive_integer_pos value fallback h = ground arith
