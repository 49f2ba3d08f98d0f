-- ===== src/Pagination/Controls.antt =====
-- Lemmas on the page, the rows and the arrows of
-- apps/web/src/components/AdminPaginationControls.tsx.
use Prim.Native.Nat.{ℕ, zero, suc, min, max, ◌+◌, ◌-◌, ◌*◌, ◌≤◌, ◌<◌}
use mathlib.Core.Path.{◌≡◌}
use mathlib.Core.Bool.{Bool, true, not, ◌||◌}
use mathlib.Core.Option.{some}
use native.Mathlib.Omega.{arith}
use statora.Prelude.Tests.{ltb}
use statora.Pagination.{PageControls, pagination_controls}

rows :
    (safe_page total_pages total limit : ℕ)
    → 1 ≤ limit
    → (total_pages - 1) * limit < total
    → 1 ≤ safe_page
    → safe_page ≤ total_pages
    → ((safe_page - 1) * limit + 1 ≤ total) × ((safe_page - 1) * limit + 1 ≤ safe_page * limit)
rows (suc s) (suc t) total limit p q h k = (grind arith, grind arith)
rows s zero total limit p q h k = absurd (omega arith)
rows zero t total limit p q h k = absurd (omega arith)

-- the page exists, and so do the pages that the two arrows lead to where they are enabled
pub record InRange (c : PageControls) : Type 0 where
  pub first : 1 ≤ c.safe_page
  pub last : c.safe_page ≤ c.safe_total_pages
  pub prev : (not c.can_go_prev || ltb 1 c.safe_page) ≡ true
  pub next : (not c.can_go_next || ltb c.safe_page c.safe_total_pages) ≡ true

module _ (page total_pages total limit : ℕ) (loading : Bool) (c : PageControls)
    (shown : pagination_controls page total_pages total limit loading ≡ some c) where
  -- Where controls are shown, the page they show exists, and so does the page before or after it
  -- where the arrow to it is enabled.
  pub pagination_controls-InRange : InRange c
  unfolding pagination_controls
  pagination_controls-InRange = ground arith

  -- Where controls are shown, the limit is positive and the last page is not empty, the rows that
  -- are announced exist: from `start` up to `end`, within the total.
  pub pagination_controls-rows :
      1 ≤ limit
      → (total_pages - 1) * limit < total
      → (1 ≤ c.start) × (c.start ≤ c.end) × (c.end ≤ total)
  unfolding pagination_controls
  pagination_controls-rows positive full =
      let range = pagination_controls-InRange in
      ground
        (arith, rows (min (max page 1) (max 1 total_pages)) total_pages total limit positive full)
