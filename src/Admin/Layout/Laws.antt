-- ===== src/Admin/Layout/Laws.antt =====
-- Lemmas on the sections of the navigation of apps/web/src/pages/admin/AdminLayout.tsx.
use Prim.Native.String.{String}
use mathlib.Core.Path.{◌≡◌, refl}
use mathlib.Core.Logic.{inl, inr}
use mathlib.Core.Bool.{Bool, true, false, not}
use mathlib.Core.Option.{Option, some}
use mathlib.Core.List.{List, [], ◌∷◌}
use native.Mathlib.Omega.{arith}
use statora.Prelude.Tests.{if◌then◌else◌, or_else, Bool-cases, Option-cases}
use statora.Prelude.Equality.{◌==◌, ==-refl, ==-comm, String_eq}
use statora.Prelude.Lists.{All}
use statora.Admin.Layout.Nav.{NavSection, is_section_active}
use statora.Admin.Layout.Sections.{
  States, get, put, section_key, opened_if, open_active, toggle_section,
}

get-put :
    (key other : String) (v : Bool) (s : States)
    → get other (put key v s) ≡ (if key == other then some v else get other s)
unfolding get put
get-put key other v [] = refl
get-put key other v ((k, w) ∷ s) = elim (Bool-cases (k == key)) [
  | inl here ↦ let p = (String_eq.same_iff k key).0 here in rw here (rw p (ground arith))
  | inr there ↦ elim (Bool-cases (k == other)) [
    | inl same ↦
        let p = (String_eq.same_iff k other).0 same in
        let q = ==-comm key other in
        let ne : (key == other) ≡ false = cc in rw there (rw (same, ne))
    | inr differs ↦ rw there (rw differs (get-put key other v s))
  ]
]

-- Toggling a section changes whether it is open, and changes no other section.
pub get-toggle_section :
    (key other : String) (s : States)
    → get other (toggle_section key s)
      ≡ (if key == other then some (not (or_else (get key s) true)) else get other s)
unfolding toggle_section
get-toggle_section key other s = get-put key other (not (or_else (get key s) true)) s

-- open, or not yet known
unfoldable pub IsOpen : String → States → Type 0
IsOpen key s = or_else (get key s) true ≡ true

opened_if-IsOpen :
    (active : Bool) (key other : String) (s : States)
    → IsOpen other s
    → IsOpen other (opened_if active key s)
unfolding IsOpen
opened_if-IsOpen active key other s h = elim (Option-cases (get key s)) [
  | inl e ↦ rw (opened_if, e) h
  | inr (true, e) ↦ rw (opened_if, e) (elim (Bool-cases active) [ inl a ↦ rw a h | inr a ↦ rw a h ])
  | inr (false, e) ↦
      rw (opened_if, e)
        (elim (Bool-cases active) [
          | inl a ↦ rw a (rw (get-put key other true s) (ground arith))
          | inr a ↦ rw a h
        ])
]

opened_if-opens : (key : String) (s : States) → IsOpen key (opened_if true key s)
unfolding IsOpen
opened_if-opens key s = elim (Option-cases (get key s)) [
  | inl e ↦ rw (opened_if, e) (rw e)
  | inr (true, e) ↦ rw (opened_if, e) (rw e)
  | inr (false, e) ↦ rw (opened_if, e) (rw (get-put key key true s, ==-refl key))
]

open_active-IsOpen :
    (pathname other : String) (sections : List NavSection) (s : States)
    → IsOpen other s
    → IsOpen other (open_active pathname sections s)
unfolding open_active
open_active-IsOpen pathname other [] s h = h
open_active-IsOpen pathname other (section ∷ sections) s h =
    open_active-IsOpen pathname other sections _ (opened_if-IsOpen _ _ other s h)

-- Once the effect has run, no section is closed that holds the page that is shown.
pub open_active-opens :
    (pathname : String) (sections : List NavSection) (s : States)
    → All
        (λ section.
          is_section_active pathname section ≡ true
          → IsOpen (section_key section.label) (open_active pathname sections s))
        sections
unfolding open_active
open_active-opens pathname [] s = tt
open_active-opens pathname (section ∷ sections) s =
    let key = section_key section.label in
    let next = opened_if (is_section_active pathname section) key s in
    (
      λ active. open_active-IsOpen pathname key sections next (rw active (opened_if-opens key s)),
      open_active-opens pathname sections next,
    )
