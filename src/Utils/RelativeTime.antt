-- ===== src/Utils/RelativeTime.antt =====
-- `formatRelativeTime` of lib/utils.ts.
use Prim.Native.Nat.{ℕ, ◌+◌, ◌-◌, ◌*◌, ◌/◌, ◌≤◌, ◌<◌}
use Prim.Native.String.{String, ◌++◌}
use mathlib.Core.Path.{◌≡◌, refl}
use mathlib.Core.Logic.{◌⊎◌, inl, inr}
use mathlib.Core.Option.{Option, none, some}
use native.Mathlib.Omega.{arith}
use statora.Prelude.Tests.{ltb, nat_eq, if◌then◌else◌, Bool-cases}
use statora.Prelude.Decimal.{print}

abbrev minute_ms : ℕ
minute_ms = 60 * 1000

abbrev hour_ms : ℕ
hour_ms = 60 * minute_ms

abbrev day_ms : ℕ
day_ms = 24 * hour_ms

-- `${n} unit${n === 1 ? '' : 's'} ago`
unfoldable pub ago : ℕ → String → String
ago n unit = print n ++ " " ++ unit ++ (if nat_eq n 1 then "" else "s") ++ " ago"

-- `timestamp` is `none` for a missing text and for one that is no date. A difference below zero
-- is 0 by `Math.max`, as it is for `-` here.
unfoldable pub format_relative_time : ℕ → Option ℕ → String
unfolding ago
format_relative_time now none = "just now"
format_relative_time now (some timestamp) =
    let diff_ms = now - timestamp in
    if ltb diff_ms minute_ms
    then "just now"
    else if ltb diff_ms hour_ms
    then ago (diff_ms / minute_ms) "minute"
    else if ltb diff_ms day_ms
    then ago (diff_ms / hour_ms) "hour"
    else ago (diff_ms / day_ms) "day"

-- the number that is shown with its unit, and its size in milliseconds
pub record Shown (now timestamp n size : ℕ) : Type 0 where
  pub positive : 0 < n
  pub lower : timestamp + n * size ≤ now
  pub upper : now < timestamp + (n + 1) * size

-- what the text says of the time that has passed
abbrev pub IsElapsed : ℕ → ℕ → String → Type 0
IsElapsed now timestamp text =
    ((now < timestamp + minute_ms) × (text ≡ "just now"))
    ⊎ ((n : ℕ) × Shown now timestamp n minute_ms × (n < 60) × (text ≡ ago n "minute"))
    ⊎ ((n : ℕ) × Shown now timestamp n hour_ms × (n < 24) × (text ≡ ago n "hour"))
    ⊎ ((n : ℕ) × Shown now timestamp n day_ms × (text ≡ ago n "day"))

-- The text is right for every time: "just now" within a minute, also of a time yet to come, and
-- else the greatest unit that has passed, with the whole number of such units.
pub format_relative_time-IsElapsed :
    (now timestamp : ℕ) → IsElapsed now timestamp (format_relative_time now (some timestamp))
unfolding format_relative_time
format_relative_time-IsElapsed now timestamp = elim (Bool-cases (ltb (now - timestamp) minute_ms)) [
  | inl recent ↦ rw recent (inl (ground arith, refl))
  | inr past ↦ elim (Bool-cases (ltb (now - timestamp) hour_ms)) [
    | inl minutes ↦
        rw (past, minutes)
          (inr (inl ((now - timestamp) / minute_ms, ground arith, ground arith, refl)))
    | inr hours ↦ elim (Bool-cases (ltb (now - timestamp) day_ms)) [
      | inl small ↦
          rw (past, hours, small)
            (inr (inr (inl ((now - timestamp) / hour_ms, ground arith, ground arith, refl))))
      | inr days ↦
          rw (past, hours, days) (inr (inr (inr ((now - timestamp) / day_ms, ground arith, refl))))
    ]
  ]
]

relative_time_tests :
    (format_relative_time 1000000 (some 940001) ≡ "just now")
    × (format_relative_time 1000000 (some 940000) ≡ "1 minute ago")
    × (format_relative_time 7200000 (some 0) ≡ "2 hours ago")
    × (format_relative_time 5 (some 10) ≡ "just now")
unfolding format_relative_time print
relative_time_tests = (refl, refl, refl, refl)
