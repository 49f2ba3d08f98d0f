-- ===== src/Admin/Maintenance/Laws.antt =====
-- Lemmas on the form of apps/web/src/pages/admin/AdminMaintenance.tsx.
use Prim.Native.Nat.{◌+◌}
use Prim.Native.String.{String, ◌++◌}
use mathlib.Core.Path.{◌≡◌, refl}
use mathlib.Core.Logic.{inl, inr}
use mathlib.Core.Bool.{Bool, true, false, not, ◌&&◌}
use mathlib.Core.Option.{Option, none, some}
use statora.Prelude.Tests.{if◌then◌else◌, is_some, Option-cases}
use statora.Prelude.Equality.{◌==◌, String_eq}
use statora.Prelude.Text.{or_text}
use statora.Types.Incident.{Maintenance}
use statora.Api.{Reply, answered, failed}
use statora.Content.{get_plain_text_from_rich_text}
use statora.Admin.Requests.{patch, Submission, send, refused}
use statora.Admin.Dialog.{open_with, refetch}
use statora.Admin.Dialog.Laws.{is_failed}
use statora.Admin.Selection.{includes, is_distinct, includes-toggled, toggled-is_distinct}
use statora.Admin.Maintenance.{
  FormState, to_datetime_local, form_of, MaintenancePage, open_edit, toggle_component, payload,
  submission, finish_delete,
}

abbrev pub is_sent {ℓ} : {B : Type ℓ} → Submission B → Bool
is_sent (send request) = true
is_sent (refused message) = false

-- Ticking a component in the form changes whether it is listed, changes it for no other, and lists
-- no component twice if none was.
pub toggle_component-ticks :
    (id other : String) (page : MaintenancePage)
    → let before = page.dialog.form.components in
      let after = (toggle_component id page).dialog.form.components in
      (includes other after
        ≡ (if id == other then not (includes other before) else includes other before))
      × (is_distinct before ≡ true → is_distinct after ≡ true)
unfolding toggle_component
toggle_component-ticks id other page =
    let before = page.dialog.form.components in
    (includes-toggled id other before, toggled-is_distinct id before)

module _ (to_iso_string : String → Option String) where
  -- A form is sent exactly if both its times are dates and its description can be read.
  pub submission-is_sent :
      (editing : Option Maintenance) (form : FormState)
      → is_sent (submission to_iso_string editing form) ≡ (
          is_some (to_iso_string form.start_time)
          && is_some (to_iso_string form.end_time)
          && is_some (get_plain_text_from_rich_text form.description_json))
  unfolding submission payload
  submission-is_sent editing form = elim (Option-cases (to_iso_string form.start_time)) [
    | inl e ↦ rw (submission, payload, e)
    | inr (start, e) ↦
        rw (submission, payload, e)
          (elim (Option-cases (to_iso_string form.end_time)) [
            | inl f ↦ rw f
            | inr (end, f) ↦
                rw f (elim (Option-cases (get_plain_text_from_rich_text form.description_json)) [
                  | inl g ↦ rw g
                  | inr (plain, g) ↦ rw g
                ])
          ])
  ]

  -- A window that is opened and saved as it is, its times being readable, is sent back under its
  -- id: its form with the times that were read, and the plain text of its description where it has
  -- some.
  pub submission-open_edit :
      (m : Maintenance) (page : MaintenancePage) (start end plain : String)
      → to_iso_string (to_datetime_local m.start_time) ≡ some start
      → to_iso_string (to_datetime_local m.end_time) ≡ some end
      → get_plain_text_from_rich_text m.description_json ≡ some plain
      → let dialog = (open_edit m page).dialog in
        submission to_iso_string dialog.editing dialog.form
        ≡ send (
            patch ("/maintenance/" ++ m.id) (record (form_of m) {
              start_time = start;
              end_time = end;
              description = or_text plain m.description;
            }))
  unfolding submission payload open_edit open_with
  submission-open_edit m page start end plain e f g = rw (submission, payload, e, f, g)

-- Once the deletion is answered the page is ready again; the row stays asked for exactly if the
-- deletion failed, and the list is fetched anew exactly if it did not.
pub finish_delete-settles :
    (reply : Reply {0} Unit) (page : MaintenancePage)
    → let next = finish_delete reply page in
      let failed = is_failed reply in
      (next.dialog.saving ≡ false)
      × (next.deleting ≡ (if failed then page.deleting else none))
      × (next.dialog.refetches
          ≡ (if failed then page.dialog.refetches else page.dialog.refetches + 1))
      × (next.dialog.form ≡ page.dialog.form)
unfolding finish_delete refetch
finish_delete-settles (answered _) page = (refl, refl, refl, refl)
finish_delete-settles (failed err) page = (refl, refl, refl, refl)
