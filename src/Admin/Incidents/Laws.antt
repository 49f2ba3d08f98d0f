-- ===== src/Admin/Incidents/Laws.antt =====
-- Lemmas on the form and the lists of apps/web/src/pages/admin/AdminIncidents.tsx.
use Prim.Native.Nat.{◌+◌}
use Prim.Native.String.{String, ◌++◌}
use mathlib.Core.Path.{◌≡◌, refl, ap}
use mathlib.Core.Bool.{true, false}
use mathlib.Core.Option.{none, some}
use mathlib.Core.List
use mathlib.Core.List.{List, [], ◌∷◌, Perm}
use mathlib.Core.List.Perm
use statora.Prelude.Tests.{if◌then◌else◌, is_some, or_else}
use statora.Prelude.Equality.{◌==◌, String_eq}
use statora.Prelude.Lists.{filter-not-perm}
use statora.Prelude.Text.{is_truthy, or_text}
use statora.Types.Status.{is_resolved}
use statora.Types.Incident.{Incident}
use statora.Api.{Reply, answered, failed}
use statora.Content.{get_plain_text_from_rich_text}
use statora.Admin.Requests.{patch, send}
use statora.Admin.Dialog.{open_with, refetch}
use statora.Admin.Dialog.Laws.{is_failed}
use statora.Admin.Selection.{toggled, is_distinct, toggled-is_distinct}
use statora.Admin.Incidents.{
  get_target, filtered, passes, all, active, resolved, IncidentsPage, open_edit, toggle_component,
  toggle_sub_component, form_of, payload, submission, finish_delete, finish_resolve,
}
use statora.Admin.Incidents.Targets.{
  empty_target, with_subs, get-toggle_target, get-toggle_sub_target, ids, ids-toggle_target,
  toggle_sub_target-is_distinct,
}

-- a click on the box of a component, or on that of one of its parts
pub data Tick : Type 0 where
  component : String → Tick
  part : String → String → Tick

unfoldable pub tick : Tick → IncidentsPage → IncidentsPage
unfolding toggle_component toggle_sub_component
tick (component id) page = toggle_component id page
tick (part id sub) page = toggle_sub_component id sub page

unfoldable pub tick_all : List Tick → IncidentsPage → IncidentsPage
unfolding tick
tick_all [] page = page
tick_all (t ∷ ts) page = tick_all ts (tick t page)

abbrev pub ticked_components : IncidentsPage → List String
ticked_components page = ids page.dialog.form.affected_component_targets

tick-is_distinct :
    (t : Tick) (page : IncidentsPage)
    → is_distinct (ticked_components page) ≡ true
    → is_distinct (ticked_components (tick t page)) ≡ true
unfolding tick toggle_component toggle_sub_component
tick-is_distinct (component id) page h =
    let ts = page.dialog.form.affected_component_targets in
    rw (ids-toggle_target id ts) (toggled-is_distinct id (ids ts) h)
tick-is_distinct (part id sub) page h =
    toggle_sub_target-is_distinct id sub page.dialog.form.affected_component_targets h

-- However often the boxes of components and parts are clicked, the form holds at most one target
-- for each component if it did so before.
pub tick_all-is_distinct :
    (ts : List Tick) (page : IncidentsPage)
    → is_distinct (ticked_components page) ≡ true
    → is_distinct (ticked_components (tick_all ts page)) ≡ true
unfolding tick_all
tick_all-is_distinct [] page h = h
tick_all-is_distinct (t ∷ ts) page h =
    tick_all-is_distinct ts (tick t page) (tick-is_distinct t page h)

-- A click on a component's box makes an empty target for it or takes its target away; a click on a
-- part's box changes the parts of the component's target, which is made if it is missing. The
-- targets of the other components stay as they were.
pub get_target-toggles :
    (id sub other : String) (page : IncidentsPage)
    → let target = get_target other page.dialog.form in
      (get_target other (toggle_component id page).dialog.form
        ≡ (if id == other then if is_some target then none else some (empty_target id) else target))
      × (get_target other (toggle_sub_component id sub page).dialog.form ≡ (
          if id == other
          then some (with_subs (toggled sub) (or_else target (empty_target other)))
          else target))
unfolding get_target toggle_component toggle_sub_component
get_target-toggles id sub other page =
    let ts = page.dialog.form.affected_component_targets in
    (get-toggle_target id other ts, get-toggle_sub_target id sub other ts)

filtered_all : (incidents : List Incident) → filtered all incidents ≡ incidents
unfolding filtered passes
filtered_all [] = refl
filtered_all (i ∷ is) = ap (λ rest. i ∷ rest) (filtered_all is)

-- The filter `all` shows every incident; those that `resolved` and `active` show are together all
-- incidents, each once.
pub filtered-perm :
    (incidents : List Incident)
    → (filtered all incidents ≡ incidents)
      × Perm (List.◌++◌ (filtered resolved incidents) (filtered active incidents)) incidents
unfolding filtered passes
filtered-perm incidents =
    (filtered_all incidents, filter-not-perm (λ i. is_resolved i.status) incidents)

-- An incident that is opened and saved as it is is sent back under its id, with the plain text of
-- its description where it has some.
pub submission-open_edit :
    (i : Incident) (page : IncidentsPage) (plain : String)
    → is_truthy i.id ≡ true
    → get_plain_text_from_rich_text i.description_json ≡ some plain
    → let dialog = (open_edit i page).dialog in
      submission dialog.editing dialog.form
      ≡ send (
          patch
            ("/incidents/" ++ i.id)
            (record (form_of i) { description = or_text plain i.description }))
unfolding submission payload open_edit open_with
submission-open_edit i page plain stored read = rw (submission, payload, read, stored)

-- Once the request to delete or to resolve is answered the page is ready again; the row stays asked
-- for exactly if the request failed, and the list is fetched anew exactly if it did not.
pub finish-settles :
    (seen : String) (reply : Reply {0} Unit) (page : IncidentsPage)
    → let after_delete = finish_delete seen reply page in
      let after_resolve = finish_resolve reply page in
      let failed = is_failed reply in
      let count = if failed then page.dialog.refetches else page.dialog.refetches + 1 in
      (after_delete.dialog.saving ≡ false)
      × (after_delete.deleting ≡ (if failed then page.deleting else none))
      × (after_delete.dialog.refetches ≡ count)
      × (after_resolve.dialog.saving ≡ false)
      × (after_resolve.resolving ≡ (if failed then page.resolving else none))
      × (after_resolve.dialog.refetches ≡ count)
unfolding finish_delete finish_resolve refetch
finish-settles seen (answered _) page = (refl, refl, refl, refl, refl, refl)
finish-settles seen (failed err) page = (refl, refl, refl, refl, refl, refl)
