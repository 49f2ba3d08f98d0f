-- ===== src/Public/Carousel.antt =====
-- apps/web/src/components/IncidentCarouselGroup.tsx: the position of the carousel, and the texts
-- under the incident that is shown. `count` is `incidents.length`.
use Prim.Native.Nat.{ℕ, ◌+◌, ◌-◌, ◌≤◌, ◌<◌, min, max}
use Prim.Native.String.{String, ◌++◌}
use mathlib.Core.Path.{◌≡◌}
use mathlib.Core.Logic.{inl, inr}
use mathlib.Core.Option.{Option, none, some}
use mathlib.Core.List.{List, [], ◌∷◌, map}
use mathlib.Core.Bool.{Bool, true, false}
use native.Mathlib.Omega.{arith}
use statora.Prelude.Tests.{ltb, leb, nat_eq, if◌then◌else◌, or_else, Option-cases}
use statora.Prelude.Decimal.{print}
use statora.Types.Status.{
  IncidentStatus, investigating, identified, monitoring, resolved, IncidentImpact, critical, major,
  minor, no_impact,
}
use statora.Types.Incident.{Incident, IncidentAffectedComponentTarget}

unfoldable pub get_impact_token : IncidentImpact → String
get_impact_token critical = "--status-major"
get_impact_token major = "--status-partial"
get_impact_token minor = "--status-degraded"
get_impact_token no_impact = "--status-operational"

unfoldable pub get_status_token : IncidentStatus → String
get_status_token investigating = "--warning"
get_status_token identified = "--partial"
get_status_token monitoring = "--info"
get_status_token resolved = "--success"

-- the two deltas that `move` is called with
pub data Direction : Type 0 where
  ahead back : Direction

-- the index after `prev + delta`, brought round at the ends
abbrev moved_from : Direction → ℕ → ℕ → ℕ
moved_from ahead count prev = if leb count (prev + 1) then 0 else prev + 1
moved_from back count prev =
    if nat_eq prev 0 then count - 1 else if leb count (prev - 1) then 0 else prev - 1

unfoldable pub move : Direction → ℕ → ℕ → ℕ
move direction count prev = if leb count 1 then prev else moved_from direction count prev

-- the effect that runs when the number of incidents has changed
unfoldable pub clamp : ℕ → ℕ → ℕ
clamp count prev = min prev (max (count - 1) 0)

-- The state of the component: its index and where the pointer went down.
pub record CarouselState : Type 0 where
  pub current_index : ℕ
  pub pointer_start_x : Option ℕ

unfoldable pub handle_pointer_down : ℕ → CarouselState → CarouselState
handle_pointer_down x s = record s { pointer_start_x = some x }

-- the index after a swipe from one place to another, in whole pixels from the left
abbrev swiped : ℕ → ℕ → ℕ → ℕ → ℕ
swiped count start x index =
    if ltb x start
    then if ltb (start - x) 40 then index else move ahead count index
    else if ltb (x - start) 40
    then index
    else move back count index

unfoldable pub handle_pointer_up : ℕ → ℕ → CarouselState → CarouselState
unfolding move
handle_pointer_up count x s = elim s.pointer_start_x [
  | none ↦ record s { pointer_start_x = none }
  | some start ↦ record s {
    current_index = if leb count 1 then s.current_index else swiped count start x s.current_index;
    pointer_start_x = none;
  }
]

unfoldable pub current_position_label : ℕ → ℕ → String
unfolding print
current_position_label count index =
    print (min (index + 1) (max count 1)) ++ " / " ++ print (max count 1)

-- `texts.join(', ')`
abbrev pub join_names : List String → String
join_names [] = ""
join_names (s ∷ []) = s
join_names (s ∷ t ∷ ts) = s ++ ", " ++ join_names (t ∷ ts)

abbrev with_parts : String → List String → String
with_parts name [] = name
with_parts name (s ∷ ss) = name ++ " (" ++ join_names (s ∷ ss) ++ ")"

abbrev target_text : IncidentAffectedComponentTarget → String
target_text t = with_parts t.component.name (map (λ s. s.name) (or_else t.sub_components []))

abbrev names_by : Option (List IncidentAffectedComponentTarget) → Incident → String
names_by (some (t ∷ ts)) i = join_names (map target_text (t ∷ ts))
names_by _ i = join_names (map (λ c. c.name) i.affected_components)

-- `''` where there is no current incident
unfoldable pub component_names : Option Incident → String
component_names none = ""
component_names (some i) = names_by i.affected_component_targets i

-- One event: the list has got another length, an arrow is clicked, or a pointer goes down or up.
pub data Step : ℕ × CarouselState → ℕ × CarouselState → Type 0 where
  resized :
      (count next : ℕ) (s : CarouselState)
      → Step (count, s) (next, record s { current_index = clamp next s.current_index })
  clicked :
      (count : ℕ) (direction : Direction) (s : CarouselState)
      → Step (count, s) (count, record s { current_index = move direction count s.current_index })
  pressed : (count x : ℕ) (s : CarouselState) → Step (count, s) (count, handle_pointer_down x s)
  released :
      (count x : ℕ) (s : CarouselState) → Step (count, s) (count, handle_pointer_up count x s)

abbrev pub first_state : CarouselState
first_state = record { current_index = 0; pointer_start_x = none }

pub data Reachable (count : ℕ) : ℕ × CarouselState → Type 0 where
  start : Reachable count (count, first_state)
  follow : {a b : ℕ × CarouselState} → Reachable count a → Step a b → Reachable count b

-- the index is that of an incident, if there is one
abbrev pub InRange : ℕ × CarouselState → Type 0
InRange (count, s) = s.current_index ≤ count - 1

move-InRange :
    (direction : Direction) (count index : ℕ)
    → index ≤ count - 1
    → move direction count index ≤ count - 1
unfolding move
move-InRange ahead count index h = ground arith
move-InRange back count index h = ground arith

swiped-InRange :
    (count down x index : ℕ) → index ≤ count - 1 → swiped count down x index ≤ count - 1
swiped-InRange count down x index h =
    ground (arith, move-InRange ahead count index h, move-InRange back count index h)

-- with the test for a list that is too short to move in
guarded-InRange :
    (few : Bool) (count down x index : ℕ)
    → index ≤ count - 1
    → (if few then index else swiped count down x index) ≤ count - 1
guarded-InRange true count down x index h = h
guarded-InRange false count down x index h = swiped-InRange count down x index h

step-InRange : {a b : ℕ × CarouselState} → Step a b → InRange a → InRange b
unfolding clamp handle_pointer_down handle_pointer_up
step-InRange (resized count next s) h = omega arith
step-InRange (clicked count direction s) h = move-InRange direction count s.current_index h
step-InRange (pressed count x s) h = h
step-InRange (released count x s) h = elim (Option-cases s.pointer_start_x) [
  | inl e ↦ rw (handle_pointer_up, e) h
  | inr (down, e) ↦
      rw (handle_pointer_up, e) (guarded-InRange (leb count 1) count down x s.current_index h)
]

-- Whatever is clicked or swiped and however the list changes, the index is that of an incident, or 0
-- where there is none.
pub reachable-InRange : (count : ℕ) {a : ℕ × CarouselState} → Reachable count a → InRange a
reachable-InRange count start = omega arith
reachable-InRange count (follow r s) = step-InRange s (reachable-InRange count r)

-- From an index of the list, moving one way and then the other returns to it.
pub move-move :
    (count index : ℕ)
    → index < count
    → (move back count (move ahead count index) ≡ index)
      × (move ahead count (move back count index) ≡ index)
unfolding move
move-move count index h = (ground arith, ground arith)
