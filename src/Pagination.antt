-- ===== src/Pagination.antt =====
-- apps/web/src/hooks/useAdminPagination.ts and components/AdminPaginationControls.tsx.
pub mod Numbers
pub mod Params
pub mod Controls
pub mod Buttons
use Prim.Native.Nat.{ℕ, ◌+◌, ◌-◌, ◌*◌, min, max}
use Prim.Native.Char.{code}
use Prim.Native.String.{String, [], ◌∷◌}
use mathlib.Core.Bool.{Bool, true, false, not, ◌&&◌, ◌||◌}
use mathlib.Core.Option.{Option, none, some}
use mathlib.Core.List.{List}
use mathlib.Core.List
use statora.Prelude.Tests.{ltb, leb, nat_eq, if◌then◌else◌}
use statora.Prelude.Equality.{◌==◌, String_eq}
use statora.Prelude.Sort.{sort}
use statora.Prelude.Decimal.{is_digit, read_digits, print}
use statora.Prelude.Reading.{Reading, nan, minus, plus, parse_int}
use statora.Prelude.Text.{is_space, trim_start, is_truthy}

abbrev pub positive_or : Reading → ℕ → ℕ
positive_or nan fallback = fallback
positive_or (minus n) fallback = fallback
positive_or (plus n) fallback = if ltb n 1 then fallback else n

unfoldable pub parse_positive_integer : Option String → ℕ → ℕ
unfolding parse_int
parse_positive_integer none fallback = fallback
parse_positive_integer (some value) fallback =
    if is_truthy value then positive_or (parse_int value) fallback else fallback

pub record PaginationOptions : Type 0 where
  pub page_param : String
  pub limit_param : String
  pub default_page : ℕ
  pub default_limit : ℕ

abbrev pub default_options : PaginationOptions
default_options = record {
  page_param = "page";
  limit_param = "limit";
  default_page = 1;
  default_limit = 10;
}

-- `URLSearchParams`: the first value under each name
abbrev pub SearchParams : Type 0
SearchParams = String → Option String

-- `next.set(name, value)`
abbrev pub set_param : String → String → SearchParams → SearchParams
set_param name value params = λ k. if k == name then some value else params k

module _ (options : PaginationOptions) (search_params : SearchParams) where
  unfoldable pub current_page : ℕ
  current_page = parse_positive_integer (search_params options.page_param) options.default_page

  unfoldable pub current_limit : ℕ
  current_limit = parse_positive_integer (search_params options.limit_param) options.default_limit

  -- the parameters after `setPage(nextPage)`; a page below zero is 1 by `Math.max`, as 0 is
  unfoldable pub set_page : ℕ → SearchParams
  set_page next_page =
      set_param options.limit_param (print current_limit)
        (set_param options.page_param (print (max 1 next_page)) search_params)

  unfoldable pub set_limit : ℕ → SearchParams
  set_limit next_limit =
      set_param options.page_param (print options.default_page)
        (set_param options.limit_param (print (max 1 next_limit)) search_params)

-- `set.has(k)`
abbrev pub contains : ℕ → List ℕ → Bool
contains k List.[] = false
contains k (List.◌∷◌ x xs) = nat_eq x k || contains k xs

-- `set.add(k)`
unfoldable pub add : ℕ → List ℕ → List ℕ
add k pages = if contains k pages then pages else List.◌++◌ pages (List.◌∷◌ k List.[])

-- one round of the loop of `buildPageButtons`
unfoldable pub add_in_range : ℕ → ℕ → List ℕ → List ℕ
add_in_range total_pages current pages =
    if leb 1 current && leb current total_pages then add current pages else pages

-- the loop runs over `page - 1`, `page` and `page + 1`
unfoldable pub build_page_buttons : ℕ → ℕ → List ℕ
build_page_buttons page total_pages =
    let ends = add total_pages (add 1 List.[]) in
    let before = add_in_range total_pages (page - 1) ends in
    let here = add_in_range total_pages page before in
    let after = add_in_range total_pages (page + 1) here in sort leb after

-- what the controls show
pub record PageControls : Type 0 where
  pub safe_page : ℕ
  pub safe_total_pages : ℕ
  pub can_go_prev : Bool
  pub can_go_next : Bool
  pub start : ℕ
  pub end : ℕ
  pub buttons : List ℕ

-- `none` where the component renders nothing
unfoldable pub pagination_controls : ℕ → ℕ → ℕ → ℕ → Bool → Option PageControls
unfolding build_page_buttons
pagination_controls page total_pages total limit loading =
    let safe_total_pages = max 1 total_pages in
    let safe_page = min (max page 1) safe_total_pages in
    if leb total 0
    then none
    else if leb safe_total_pages 1
    then none
    else some (record {
      safe_page = safe_page;
      safe_total_pages = safe_total_pages;
      can_go_prev = ltb 1 safe_page && not loading;
      can_go_next = ltb safe_page safe_total_pages && not loading;
      start = (safe_page - 1) * limit + 1;
      end = min total (safe_page * limit);
      buttons = build_page_buttons safe_page safe_total_pages;
    })
