-- ===== src/Admin/Layout/Sections.antt =====
-- apps/web/src/pages/admin/AdminLayout.tsx: which sections of the navigation are open, and where
-- that is stored. A `Record<string, boolean>` is a list of its entries, a key at most once.
use Prim.Native.Char.{Char, code}
use Prim.Native.String.{String}
use mathlib.Core.Bool.{Bool, true, false, not, ◌&&◌, ◌||◌}
use mathlib.Core.Option.{Option, none, some}
use mathlib.Core.List.{List, [], ◌∷◌, map}
use statora.Prelude.Tests.{leb, nat_eq, if◌then◌else◌, or_else, is_some}
use statora.Prelude.Equality.{◌==◌, String_eq}
use statora.Prelude.Text.{is_truthy, lower}
use statora.Auth.Storage.{LocalStorage, Codec, get_item, set_item}
use statora.Admin.Layout.Nav.{NavSection, is_section_active}

abbrev pub States : Type 0
States = List (String × Bool)

unfoldable pub get : String → States → Option Bool
get key [] = none
get key ((k, v) ∷ states) = let rest = get key states in if k == key then some v else rest

-- `states[key] = value`
unfoldable pub put : String → Bool → States → States
put key value [] = (key, value) ∷ []
put key value ((k, v) ∷ states) =
    let rest = put key value states in if k == key then (k, value) ∷ states else (k, v) ∷ rest

abbrev pub section_state_key : String
section_state_key = "admin_sidebar_section_state"

-- `/[a-z0-9]/`
abbrev is_word : Char → Bool
is_word c = (leb b'a' (code c) && leb (code c) b'z') || (leb b'0' (code c) && leb (code c) b'9')

-- `.toLowerCase().replace(/[^a-z0-9]+/g, '_')`; the flag says whether the run has begun
slug : Bool → String → String
unfolding lower
slug begun String.[] = String.[]
slug begun (String.◌∷◌ c s) =
    let after_word = slug false s in
    let after_gap = slug true s in
    if is_word (lower c)
    then String.◌∷◌ (lower c) after_word
    else if begun
    then after_gap
    else String.◌∷◌ "_" after_gap

strip_start : String → String
strip_start String.[] = String.[]
strip_start (String.◌∷◌ c s) =
    let rest = strip_start s in if nat_eq (code c) b'_' then rest else String.◌∷◌ c s

strip_end : String → String
strip_end String.[] = String.[]
strip_end (String.◌∷◌ c s) =
    let rest = strip_end s in
    if is_truthy rest
    then String.◌∷◌ c rest
    else if nat_eq (code c) b'_'
    then String.[]
    else String.◌∷◌ c String.[]

unfoldable pub section_key : String → String
unfolding slug strip_start strip_end
section_key label = strip_end (strip_start (slug false label))

-- the entry of a key: the state before, or else what is stored, or else open
abbrev pub initial_value : States → States → String → Bool
initial_value stored prev key = or_else (get key prev) (or_else (get key stored) true)

unfoldable pub initial_states : List String → States → States → States
unfolding get
initial_states keys stored prev = map (λ key. (key, initial_value stored prev key)) keys

unfoldable pub has_all : List String → States → Bool
unfolding get
has_all [] states = true
has_all (key ∷ keys) states = is_some (get key states) && has_all keys states

-- the entries that are stored
abbrev pub kept_states : List String → States → States
kept_states keys states = map (λ key. (key, or_else (get key states) true)) keys

module _ (json : Codec States) where
  -- what is stored, or nothing where it does not parse
  unfoldable pub stored_states : LocalStorage → States
  stored_states store = elim (get_item section_state_key store) [
    | none ↦ []
    | some raw ↦ if is_truthy raw then or_else (json.parse raw) [] else []
  ]

  unfoldable pub store_states : List String → States → LocalStorage → LocalStorage
  unfolding has_all
  store_states [] states store = store
  store_states (key ∷ keys) states store =
      if has_all (key ∷ keys) states
      then set_item section_state_key (json.stringify (kept_states (key ∷ keys) states)) store
      else store

-- the effect that opens the sections of the page that is shown
abbrev pub opened_if : Bool → String → States → States
opened_if active key states = elim (get key states) [
  | none ↦ states
  | some is_open ↦ if active && not is_open then put key true states else states
]

unfoldable pub open_active : String → List NavSection → States → States
unfolding is_section_active section_key put
open_active pathname [] states = states
open_active pathname (section ∷ sections) states =
    open_active pathname sections
      (opened_if (is_section_active pathname section) (section_key section.label) states)

unfoldable pub toggle_section : String → States → States
unfolding put get
toggle_section key states = put key (not (or_else (get key states) true)) states
