-- ===== src/Hooks/UseTheme.antt =====
-- apps/web/src/hooks/useTheme.ts: the theme of the admin pages, its stored preference and the
-- system's. `localStorage` is `none` where reading it throws; whether it accepts a text is decided at
-- each write.
use Prim.Native.String.{String}
use mathlib.Core.Path.{◌≡◌, refl}
use mathlib.Core.Logic.{inl, inr}
use mathlib.Core.Bool.{Bool, true, false, ◌&&◌}
use mathlib.Core.Option
use mathlib.Core.Option.{Option, none, some}
use statora.Prelude.Tests.{if◌then◌else◌, or_else, is_some, Option-cases}
use statora.Prelude.Equality.{◌==◌, String_eq}
use statora.Auth.Storage.{LocalStorage, get_item, set_item}

pub data ThemeName : Type 0 where
  light dark : ThemeName

-- the text of a name, as it is stored
abbrev pub text_of : ThemeName → String
text_of light = "light"
text_of dark = "dark"

abbrev pub storage_key : String
storage_key = "admin_theme"

abbrev pub is_dark : ThemeName → Bool
is_dark light = false
is_dark dark = true

-- by the answer of `matchMedia`, `none` where there is no window
unfoldable pub get_system_theme : Option Bool → ThemeName
get_system_theme none = light
get_system_theme (some matches) = if matches then dark else light

-- `stored === 'light' || stored === 'dark'`
abbrev read_name : Option String → Option ThemeName
read_name none = none
read_name (some s) = if s == "light" then some light else if s == "dark" then some dark else none

unfoldable pub get_stored_theme : Option LocalStorage → Option ThemeName
get_stored_theme none = none
get_stored_theme (some store) = read_name (get_item storage_key store)

-- The state of the hook; `root_dark` is the class of the document's root.
pub record ThemeHook : Type 0 where
  pub theme : ThemeName
  pub storage : Option LocalStorage
  pub root_dark : Bool

unfoldable pub apply_theme : ThemeName → ThemeHook → ThemeHook
apply_theme theme h = record h { root_dark = is_dark theme }

-- the first render and its effects
unfoldable pub use_theme : Bool → Option LocalStorage → Bool → ThemeHook
unfolding get_stored_theme get_system_theme apply_theme
use_theme system storage root_dark =
    let theme = or_else (get_stored_theme storage) (get_system_theme (some system)) in
    apply_theme theme (record { theme = theme; storage = storage; root_dark = root_dark })

-- `handleChange`
unfoldable pub handle_change : Bool → ThemeHook → ThemeHook
unfolding get_stored_theme apply_theme
handle_change matches h = elim (get_stored_theme h.storage) [
  | none ↦
      let next = if matches then dark else light in apply_theme next (record h { theme = next })
  | some stored ↦ h
]

-- with the effect of the state that it sets; `accepted` says whether `setItem` succeeds, and a
-- refused write is caught
unfoldable pub set_theme : Bool → ThemeName → ThemeHook → ThemeHook
unfolding apply_theme
set_theme accepted next h = apply_theme next (record h {
  theme = next;
  storage =
      if accepted then Option.map (set_item storage_key (text_of next)) h.storage else h.storage;
})

-- `theme === 'dark' ? 'light' : 'dark'`
abbrev pub other_theme : ThemeName → ThemeName
other_theme light = dark
other_theme dark = light

unfoldable pub toggle_theme : Bool → ThemeHook → ThemeHook
unfolding set_theme
toggle_theme accepted h = set_theme accepted (other_theme h.theme) h

-- an event, and whether what it writes is accepted
pub data Step : Bool → ThemeHook → ThemeHook → Type 0 where
  changed : (h : ThemeHook) (matches : Bool) → Step true h (handle_change matches h)
  set :
      (accepted : Bool) (h : ThemeHook) (next : ThemeName)
      → Step accepted h (set_theme accepted next h)
  toggled : (accepted : Bool) (h : ThemeHook) → Step accepted h (toggle_theme accepted h)

-- with whether every write so far was accepted
pub data Reachable : Bool → ThemeHook → Type 0 where
  start :
      (system root_dark : Bool) (storage : Option LocalStorage)
      → Reachable true (use_theme system storage root_dark)
  follow :
      {before now : Bool} {h next : ThemeHook}
      → Reachable before h
      → Step now h next
      → Reachable (now && before) next

-- the document wears the theme of the state, which, if every write was accepted, is the stored one
-- where one is stored
pub IsSettled : Bool → ThemeHook → Type 0
IsSettled all_accepted h =
    (h.root_dark ≡ is_dark h.theme)
    × ((if all_accepted then or_else (get_stored_theme h.storage) h.theme else h.theme) ≡ h.theme)

stored_name :
    (next : ThemeName) (storage : Option LocalStorage)
    → get_stored_theme (Option.map (set_item storage_key (text_of next)) storage)
      ≡ (if is_some storage then some next else none)
unfolding get_stored_theme
stored_name next none = refl
stored_name light (some store) = refl
stored_name dark (some store) = refl

-- A theme that is set is read back from the storage, where there is one.
pub get_stored_theme-set_theme :
    (next : ThemeName) (h : ThemeHook)
    → get_stored_theme (set_theme true next h).storage
      ≡ (if is_some h.storage then some next else none)
unfolding set_theme apply_theme
get_stored_theme-set_theme next h = stored_name next h.storage

or_else_if : (b : Bool) (next : ThemeName) → or_else (if b then some next else none) next ≡ next
or_else_if true next = refl
or_else_if false next = refl

or_else_idem : (o : Option ThemeName) (d : ThemeName) → or_else o (or_else o d) ≡ or_else o d
or_else_idem none d = refl
or_else_idem (some t) d = refl

set_theme-IsSettled :
    (accepted before : Bool) (next : ThemeName) (h : ThemeHook)
    → IsSettled (accepted && before) (set_theme accepted next h)
unfolding IsSettled set_theme apply_theme
set_theme-IsSettled true true next h =
    (refl, rw (stored_name next h.storage) (or_else_if (is_some h.storage) next))
set_theme-IsSettled true false next h = (refl, refl)
set_theme-IsSettled false before next h = (refl, refl)

pub handle_change-stored :
    (matches : Bool) (h : ThemeHook) (t : ThemeName)
    → get_stored_theme h.storage ≡ some t
    → handle_change matches h ≡ h
unfolding handle_change
handle_change-stored matches h t e = rw (handle_change, e)

if_same : (b : Bool) (t : ThemeName) → (if b then t else t) ≡ t
if_same true t = refl
if_same false t = refl

handle_change-IsSettled :
    (before matches : Bool) (h : ThemeHook)
    → IsSettled before h
    → IsSettled before (handle_change matches h)
unfolding IsSettled handle_change apply_theme
handle_change-IsSettled before matches h s = elim (Option-cases (get_stored_theme h.storage)) [
  | inl e ↦ rw (handle_change, e) (refl, rw e (if_same before (if matches then dark else light)))
  | inr (t, e) ↦ rw (handle_change, e) s
]

step-IsSettled :
    (before : Bool) {now : Bool} {h next : ThemeHook}
    → Step now h next
    → IsSettled before h
    → IsSettled (now && before) next
unfolding toggle_theme
step-IsSettled before (changed h matches) s = handle_change-IsSettled before matches h s
step-IsSettled before (set accepted h next) s = set_theme-IsSettled accepted before next h
step-IsSettled before (toggled accepted h) s =
    set_theme-IsSettled accepted before (other_theme h.theme) h

-- In every state that the hook reaches, the document wears the theme of the state. If every write
-- so far was accepted, that is the stored preference where one is stored.
pub reachable-IsSettled :
    {all_accepted : Bool} {h : ThemeHook} → Reachable all_accepted h → IsSettled all_accepted h
unfolding IsSettled use_theme apply_theme
reachable-IsSettled (start system root_dark storage) =
    (refl, or_else_idem (get_stored_theme storage) (get_system_theme (some system)))
reachable-IsSettled (follow {before} r s) = step-IsSettled before s (reachable-IsSettled r)
