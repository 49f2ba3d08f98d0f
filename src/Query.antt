-- ===== src/Query.antt =====
-- apps/web/src/hooks/useApi.ts: the state of the two hooks that fetch, before the request and after
-- its outcome. A body is any JSON value.
pub mod Laws
use Prim.Native.Nat.{ℕ, ◌+◌}
use Prim.Native.String.{String}
use mathlib.Core.Bool.{Bool, true, false, not, ◌&&◌}
use mathlib.Core.Option.{Option, none, some}
use mathlib.Core.List.{List, [], ◌∷◌}
use statora.Prelude.Tests.{if◌then◌else◌, or_else, nat_eq}
use statora.Prelude.Equality.{◌==◌, String_eq}
use statora.Prelude.Text.{is_truthy}
use statora.Types.Json.{
  Decimal, Json, null, boolean, number, str, arr, obj, Items, nil, cons, Fields, end, field,
}
use statora.Types.Incident.{CategorySummary}
use statora.Auth.{truthy_text}
use statora.Profile.Page.{Outcome, ok, thrown}

pub data QueryParamValue : Type 0 where
  text : String → QueryParamValue
  amount : Decimal → QueryParamValue
  flag : Bool → QueryParamValue

-- The entries of `params` with those left out whose value is `null` or `undefined`.
unfoldable pub normalize_params :
    List (String × Option QueryParamValue) → List (String × QueryParamValue)
normalize_params [] = []
normalize_params ((key, none) ∷ entries) = normalize_params entries
normalize_params ((key, some value) ∷ entries) = (key, value) ∷ normalize_params entries

-- the value of a property, `none` for `undefined`
unfoldable pub property : String → Fields → Option Json
property key end = none
property key (field k v fs) = let rest = property key fs in if k == key then some v else rest

abbrev pub is_array : Option Json → Bool
is_array none = false
is_array (some (arr items)) = true
is_array (some _) = false

abbrev pub is_number : Option Json → Bool
is_number none = false
is_number (some (number n)) = true
is_number (some _) = false

-- An array is an object as well, and has neither property.
unfoldable pub is_paginated_envelope : Json → Bool
unfolding property
is_paginated_envelope (obj fs) = is_array (property "items" fs) && is_number (property "total" fs)
is_paginated_envelope _ = false

abbrev pub whole : ℕ → Json
whole n = number (record { negative = false; digits = n; scale = 0 })

-- the values that `||` passes over
unfoldable pub is_falsy : Json → Bool
is_falsy null = true
is_falsy (boolean b) = not b
is_falsy (number n) = nat_eq n.digits 0
is_falsy (str s) = not (is_truthy s)
is_falsy _ = false

-- `value || 1`
unfoldable pub or_one : Option Json → Json
unfolding is_falsy
or_one none = whole 1
or_one (some v) = if is_falsy v then whole 1 else v

unfoldable pub array_length : Items → ℕ
array_length nil = 0
array_length (cons v vs) = 1 + array_length vs

-- `Array.isArray(data) ? data.length : 0`
unfoldable pub length_or_zero : Json → ℕ
unfolding array_length
length_or_zero (arr items) = array_length items
length_or_zero _ = 0

pub record ApiState : Type 0 where
  pub data_shown : Option Json
  pub total : Json
  pub page : Json
  pub total_pages : Json
  pub loading : Bool
  pub error : Option String

abbrev pub first_state : ApiState
first_state = record {
  data_shown = none;
  total = whole 0;
  page = whole 1;
  total_pages = whole 1;
  loading = true;
  error = none;
}

unfoldable pub begin_fetch : ApiState → ApiState
begin_fetch s = record s { loading = true; error = none }

-- the properties of a body that passed the test, or the body as it is
unfoldable pub received : Json → ApiState → ApiState
unfolding is_paginated_envelope property or_one length_or_zero
received (obj fs) s =
    if is_paginated_envelope (obj fs)
    then record s {
      data_shown = property "items" fs;
      total = or_else (property "total" fs) null;
      page = or_one (property "page" fs);
      total_pages = or_one (property "total_pages" fs);
    }
    else record s {
      data_shown = some (obj fs);
      total = whole 0;
      page = whole 1;
      total_pages = whole 1;
    }
received body s = record s {
  data_shown = some body;
  total = whole (length_or_zero body);
  page = whole 1;
  total_pages = whole 1;
}

unfoldable pub finish_fetch : Outcome Json → ApiState → ApiState
unfolding received
finish_fetch (ok body) s = record (received body s) { loading = false }
finish_fetch (thrown message) s = record s {
  error = some (or_else message "Request failed");
  loading = false;
}

-- the state of `useCategorySummary`
pub record SummaryState : Type 0 where
  pub summary : Option CategorySummary
  pub loading : Bool
  pub error : Option String

-- What happens without a request, or before it.
unfoldable pub begin_summary : Option String → SummaryState → SummaryState
begin_summary category_prefix s =
    if truthy_text category_prefix
    then record s { loading = true; error = none }
    else record { summary = none; error = some "Missing category prefix"; loading = false }

unfoldable pub finish_summary : Outcome CategorySummary → SummaryState → SummaryState
finish_summary (ok summary) s = record s { summary = some summary; loading = false }
finish_summary (thrown message) s = record {
  summary = none;
  error = some (or_else message "Request failed");
  loading = false;
}
