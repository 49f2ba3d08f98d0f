-- ===== src/Public/History.antt =====
-- apps/web/src/pages/HistoryPage.tsx: the quarter that is shown and its months.
pub mod Laws
use Prim.Native.Nat.{ℕ, zero, suc, ◌+◌, ◌-◌, ◌*◌, ◌/◌, ◌%◌}
use Prim.Native.String.{String, ◌++◌}
use mathlib.Core.Bool.{Bool, true, false, ◌&&◌}
use mathlib.Core.Option.{Option, none, some}
use mathlib.Core.List.{List, [], ◌∷◌}
use statora.Prelude.Tests.{ltb, leb, nat_eq, if◌then◌else◌}
use statora.Prelude.Equality.{◌==◌, ℕ_eq, Option_eq}
use statora.Prelude.Decimal.{print}
use statora.Prelude.Lists.{filter}
use statora.Prelude.Sort.{sort}
use statora.Types.Incident.{Incident}
use statora.Utils.Dates.{Dates, LocalDate, full_year, month_of}
use statora.Utils.Grouping.{created_newest_first}

pub record QuarterCursor : Type 0 where
  pub year : ℕ
  pub quarter : ℕ

pub record MonthBucket : Type 0 where
  pub month_index : ℕ
  pub month_label : String
  pub incidents : List Incident

unfoldable pub get_current_quarter_cursor : LocalDate → QuarterCursor
get_current_quarter_cursor reference = record {
  year = reference.year;
  quarter = reference.month / 3;
}

unfoldable pub to_quarter_index : QuarterCursor → ℕ
to_quarter_index cursor = cursor.year * 4 + cursor.quarter

-- the cursor at a number of quarters since the year 0
abbrev pub at_index : ℕ → QuarterCursor
at_index absolute_quarter = record {
  year = absolute_quarter / 4;
  quarter = (absolute_quarter % 4 + 4) % 4;
}

-- `shiftQuarter` by a delta that is not negative, and by one that is
unfoldable pub shift_ahead : ℕ → QuarterCursor → QuarterCursor
unfolding to_quarter_index
shift_ahead delta cursor = at_index (to_quarter_index cursor + delta)

-- `none` where the sum is negative, that is before the year 0
unfoldable pub shift_back : ℕ → QuarterCursor → Option QuarterCursor
unfolding to_quarter_index
shift_back delta cursor =
    if ltb (to_quarter_index cursor) delta
    then none
    else some (at_index (to_quarter_index cursor - delta))

abbrev pub month_short : List String
month_short =
    "Jan" ∷ "Feb" ∷ "Mar" ∷ "Apr" ∷ "May" ∷ "Jun" ∷ "Jul" ∷ "Aug" ∷ "Sep" ∷ "Oct" ∷ "Nov" ∷ "Dec"
    ∷ []

-- `${texts[i]}`
abbrev text_at : List String → ℕ → String
text_at [] i = "undefined"
text_at (s ∷ ss) zero = s
text_at (s ∷ ss) (suc i) = text_at ss i

unfoldable pub format_quarter_label : QuarterCursor → String
unfolding print
format_quarter_label cursor =
    let start_month = cursor.quarter * 3 in
    text_at month_short start_month
    ++ " – "
    ++ text_at month_short (start_month + 2)
    ++ " "
    ++ print cursor.year

unfoldable pub can_go_next : QuarterCursor → QuarterCursor → Bool
unfolding to_quarter_index
can_go_next selected current = ltb (to_quarter_index selected) (to_quarter_index current)

module _ (dates : Dates) where
  -- in the year of the cursor and in the month
  unfoldable pub is_in_month : QuarterCursor → ℕ → Incident → Bool
  is_in_month cursor month_index incident =
      (full_year dates incident.created_at == some cursor.year)
      && (month_of dates incident.created_at == some month_index)

  -- `label` is `toLocaleString` of the first of the month
  abbrev month_bucket : (ℕ → ℕ → String) → List Incident → QuarterCursor → ℕ → MonthBucket
  unfolding created_newest_first is_in_month
  month_bucket label incidents cursor offset =
      let month_index = cursor.quarter * 3 + (2 - offset) in
      record {
        month_index = month_index;
        month_label = label cursor.year month_index;
        incidents =
            sort (created_newest_first dates) (filter (is_in_month cursor month_index) incidents);
      }

  unfoldable pub group_incidents_by_quarter_months :
      (ℕ → ℕ → String) → List Incident → QuarterCursor → List MonthBucket
  unfolding created_newest_first sort is_in_month
  group_incidents_by_quarter_months label incidents cursor =
      month_bucket label incidents cursor 0
      ∷ month_bucket label incidents cursor 1
      ∷ month_bucket label incidents cursor 2
      ∷ []
