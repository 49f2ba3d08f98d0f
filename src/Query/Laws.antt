-- ===== src/Query/Laws.antt =====
-- Lemmas on apps/web/src/hooks/useApi.ts.
use mathlib.Core.Path.{◌≡◌, refl, ap}
use mathlib.Core.Logic.{inl, inr}
use mathlib.Core.Bool.{Bool, true, false}
use mathlib.Core.Option.{Option, none, some}
use statora.Prelude.Tests.{is_some, Bool-cases}
use statora.Types.Json.{Json, obj}
use statora.Profile.Page.{Outcome, ok, thrown}
use statora.Query.{
  is_falsy, property, or_one, is_paginated_envelope, ApiState, begin_fetch, received, finish_fetch,
}

-- both numbers of pages can be shown
abbrev pub HasPages : ApiState → Type 0
HasPages s = (is_falsy s.page ≡ false) × (is_falsy s.total_pages ≡ false)

or_one_truthy : (v : Option Json) → is_falsy (or_one v) ≡ false
unfolding or_one is_falsy
or_one_truthy none = refl
or_one_truthy (some v) = elim (Bool-cases (is_falsy v)) [
  | inl falsy ↦ rw (falsy, is_falsy) refl
  | inr truthy ↦ rw truthy truthy
]

received-HasPages : (body : Json) (s : ApiState) → HasPages (received body s)
unfolding received
received-HasPages (obj fs) s = elim (Bool-cases (is_paginated_envelope (obj fs))) [
  | inl paginated ↦
      rw paginated (or_one_truthy (property "page" fs), or_one_truthy (property "total_pages" fs))
  | inr plain ↦ rw plain (refl, refl)
]
received-HasPages _ s = (refl, refl)

error-received : (body : Json) (s : ApiState) → (received body s).error ≡ s.error
unfolding received
error-received (obj fs) s = elim (Bool-cases (is_paginated_envelope (obj fs))) [
  | inl paginated ↦ rw paginated refl
  | inr plain ↦ rw plain refl
]
error-received _ s = refl

abbrev pub is_thrown : Outcome Json → Bool
is_thrown (ok body) = false
is_thrown (thrown message) = true

-- A fetch ends whatever comes back: nothing is loading, an error is shown exactly if the request
-- was rejected, and the numbers of pages are never 0, null or missing if they were not before.
pub finish_fetch-HasPages :
    (outcome : Outcome Json) (s : ApiState)
    → HasPages s
    → let next = finish_fetch outcome (begin_fetch s) in
      HasPages next × (next.loading ≡ false) × (is_some next.error ≡ is_thrown outcome)
unfolding finish_fetch begin_fetch
finish_fetch-HasPages (ok body) s h =
    let start = begin_fetch s in
    (received-HasPages body start, refl, ap is_some (error-received body start))
finish_fetch-HasPages (thrown message) s h = (h, refl, refl)
