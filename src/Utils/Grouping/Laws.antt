-- ===== src/Utils/Grouping/Laws.antt =====
-- Lemmas on the comparators that the groupings of apps/web/src/lib/utils.ts share.
use mathlib.Core.Path.{◌≡◌}
use mathlib.Core.Bool.{true}
use native.Mathlib.Omega.{arith}
use statora.Prelude.Tests.{is_some}
use statora.Prelude.Sort.{IsOrder}
use statora.Types.Incident.{Incident}
use statora.Utils.Dates.{Dates, newest_first}
use statora.Utils.Grouping.{created_newest_first, status_then_newest}

module _ (dates : Dates) where
  -- `createdAt` is a date
  abbrev pub HasValidDate : Incident → Type 0
  HasValidDate i = is_some (dates.time i.created_at) ≡ true

  pub created_newest_first-IsOrder : IsOrder HasValidDate (created_newest_first dates)
  unfolding created_newest_first newest_first
  created_newest_first-IsOrder = record {
    total = λ x y p q. ground arith;
    trans = λ x y z p q r. ground arith;
  }

  pub status_then_newest-IsOrder : IsOrder HasValidDate (status_then_newest dates)
  unfolding status_then_newest created_newest_first newest_first
  status_then_newest-IsOrder = record {
    total = λ x y p q. ground arith;
    trans = λ x y z p q r. ground arith;
  }
