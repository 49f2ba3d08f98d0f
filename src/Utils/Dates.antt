-- ===== src/Utils/Dates.antt =====
-- The calendar that `new Date` consults, and the date helpers of lib/utils.ts. The reading of a
-- text as a time and the local time zone are the run-time's: `Dates` hands them in.
use Prim.Native.Nat.{ℕ, ◌+◌, ◌<◌}
use Prim.Native.String.{String, ◌++◌}
use mathlib.Core.Bool.{Bool, true}
use mathlib.Core.Option
use mathlib.Core.Option.{Option, none, some}
use statora.Prelude.Tests.{leb, ltb, if◌then◌else◌}
use statora.Prelude.Decimal.{print}

-- the fields of a time in the local time zone; January is month 0
pub record LocalDate : Type 0 where
  pub year : ℕ
  pub month : ℕ
  pub day : ℕ

pub record Dates : Type 0 where
  -- `new Date(s).getTime()` in milliseconds since 1970; `none` is NaN, an invalid date
  pub time : String → Option ℕ
  pub local : ℕ → LocalDate
  -- `getMonth` answers 0 to 11
  pub month_lt : (t : ℕ) → (local t).month < 12

-- `String(n).padStart(2, '0')`
abbrev pub pad2 : ℕ → String
pad2 n = if ltb n 10 then "0" ++ print n else print n

unfoldable pub format_local_date_key : Option LocalDate → String
unfolding print
format_local_date_key none = "NaN-NaN-NaN"
format_local_date_key (some d) = print d.year ++ "-" ++ pad2 (d.month + 1) ++ "-" ++ pad2 d.day

module _ (dates : Dates) where
  -- `new Date(s)` in local fields
  abbrev pub local_date : String → Option LocalDate
  local_date s = Option.map dates.local (dates.time s)

  -- `new Date(s).getFullYear()`
  abbrev pub full_year : String → Option ℕ
  full_year s = Option.map (λ d. d.year) (local_date s)

  -- `new Date(s).getMonth()`
  abbrev pub month_of : String → Option ℕ
  month_of s = Option.map (λ d. d.month) (local_date s)

  unfoldable pub to_date_key : String → String
  unfolding format_local_date_key
  to_date_key s = format_local_date_key (local_date s)

-- `t(b) - t(a)` is not positive; a difference with NaN counts as 0
unfoldable pub newest_first : Option ℕ → Option ℕ → Bool
newest_first (some a) (some b) = leb b a
newest_first _ _ = true

pub data Quarter : Type 0 where
  q1 q2 q3 q4 : Quarter

unfoldable pub get_quarter_label : ℕ → Quarter
get_quarter_label month_index =
    if leb month_index 2
    then q1
    else if leb month_index 5
    then q2
    else if leb month_index 8
    then q3
    else q4
