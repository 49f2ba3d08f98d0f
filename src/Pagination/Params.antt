-- ===== src/Pagination/Params.antt =====
-- Lemmas on setPage and setLimit of apps/web/src/hooks/useAdminPagination.ts.
use Prim.Native.Nat.{ℕ, ◌≤◌, max}
use Prim.Native.String.{String}
use mathlib.Core.Path.{◌≡◌, sym, ap, ◌∙◌}
use mathlib.Core.Logic.{◌≢◌}
use native.Mathlib.Omega.{arith}
use text.Mathlib.TextEquality.{eq_iff}
use mathlib.Core.Option.{some}
use statora.Prelude.Equality.{==-refl, String_eq}
use statora.Prelude.Decimal.{print}
use statora.Pagination.{
  PaginationOptions, SearchParams, current_page, current_limit, set_page, set_limit, set_param,
  parse_positive_integer,
}
use statora.Pagination.Numbers.{parse_positive_integer-print, parse_positive_integer_pos}

set_param_self :
    (name value : String) (params : SearchParams) → set_param name value params name ≡ some value
set_param_self name value params = rw (==-refl name)

set_param_ne :
    (name value k : String) (params : SearchParams)
    → k ≢ name
    → set_param name value params k ≡ params k
set_param_ne name value k params h = ground (arith, eq_iff k name)

module _ (options : PaginationOptions) (params : SearchParams) where
  -- After `setPage` the page reads as the one asked for, or 1 below it, and the limit as it was, if
  -- the two parameters have different names and the default limit is positive.
  pub set_page-reads :
      (next_page : ℕ)
      → options.page_param ≢ options.limit_param
      → 1 ≤ options.default_limit
      → (current_page options (set_page options params next_page) ≡ max 1 next_page)
        × (current_limit options (set_page options params next_page) ≡ current_limit options params)
  unfolding current_page current_limit set_page
  set_page-reads next_page distinct positive = (
    ap (λ t. parse_positive_integer t options.default_page)
          (set_param_ne options.limit_param _ options.page_param
              (set_param options.page_param (print (max 1 next_page)) params) distinct
            ∙ set_param_self options.page_param (print (max 1 next_page)) params)
        ∙ parse_positive_integer-print (max 1 next_page) options.default_page
        ∙ ground arith,
    ap (λ t. parse_positive_integer t options.default_limit)
          (set_param_self options.limit_param (print (current_limit options params))
            (set_param options.page_param (print (max 1 next_page)) params))
        ∙ parse_positive_integer-print (current_limit options params) options.default_limit
        ∙ ground (
          arith,
          parse_positive_integer_pos (params options.limit_param) options.default_limit positive,
        ),
  )

  -- After `setLimit` the limit reads as the one asked for, or 1 below it, and the page as the
  -- default page, if the two parameters have different names.
  pub set_limit-reads :
      (next_limit : ℕ)
      → options.page_param ≢ options.limit_param
      → (current_limit options (set_limit options params next_limit) ≡ max 1 next_limit)
        × (current_page options (set_limit options params next_limit) ≡ options.default_page)
  unfolding current_page current_limit set_limit
  set_limit-reads next_limit distinct = (
    ap (λ t. parse_positive_integer t options.default_limit)
          (set_param_ne options.page_param _ options.limit_param
              (set_param options.limit_param (print (max 1 next_limit)) params)
              (λ e. distinct (sym e))
            ∙ set_param_self options.limit_param (print (max 1 next_limit)) params)
        ∙ parse_positive_integer-print (max 1 next_limit) options.default_limit
        ∙ ground arith,
    ap (λ t. parse_positive_integer t options.default_page)
          (set_param_self options.page_param (print options.default_page)
            (set_param options.limit_param (print (max 1 next_limit)) params))
        ∙ parse_positive_integer-print options.default_page options.default_page
        ∙ ground arith,
  )
