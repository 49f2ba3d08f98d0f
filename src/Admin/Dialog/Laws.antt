-- ===== src/Admin/Dialog/Laws.antt =====
-- Lemmas on the editing dialog.
use Prim.Native.Nat.{◌+◌}
use Prim.Native.String.{String}
use mathlib.Core.Path.{◌≡◌, refl}
use mathlib.Core.Bool.{Bool, true, false, not, ◌||◌, ◌&&◌}
use mathlib.Core.Option.{none}
use native.Mathlib.Omega.{arith}
use statora.Prelude.Tests.{if◌then◌else◌, is_some}
use statora.Prelude.Text.{is_truthy}
use statora.Api.{Reply, answered, failed, get_api_error_message}
use statora.Admin.Requests.{Submission, send, refused}
use statora.Admin.Dialog.{
  Dialog, open_with, close_modal, refetch, begin_save, finish_save, finish_delete, Editor, Step,
  create, edit, close, typed, submit, saved, deleted, Reachable, start, follow,
}

-- a row is edited only while the dialog is shown, and the error is empty while a save is under way
pub IsConsistent {κ φ} : {K : Type κ} {F : Type φ} → Dialog K F → Type 0
IsConsistent page =
    ((not (is_some page.editing) || page.show_modal) ≡ true)
    × ((not page.saving || not (is_truthy page.error)) ≡ true)

module _ {ρ κ φ β} {R : Type ρ} {K : Type κ} {F : Type φ} {B : Type β} (e : Editor R K F B) where
  begin_save-IsConsistent :
      (s : Submission B) (page : Dialog K F) → IsConsistent page → IsConsistent (begin_save s page)
  unfolding IsConsistent begin_save
  begin_save-IsConsistent (send request) page h = ground (arith, h.0)
  begin_save-IsConsistent (refused message) page h = (h.0, refl)

  step-IsConsistent :
      {page next : Dialog K F} → Step e page next → IsConsistent page → IsConsistent next
  unfolding IsConsistent open_with close_modal refetch finish_save finish_delete
  step-IsConsistent (create page) h = ground (arith)
  step-IsConsistent (edit page row) h = ground (arith)
  step-IsConsistent (close page) h = (refl, h.1)
  step-IsConsistent (typed page form) h = h
  step-IsConsistent (submit page idle) h =
      begin_save-IsConsistent (e.submission page.editing page.form) page h
  step-IsConsistent (saved page text (answered _) busy) h = (refl, refl)
  step-IsConsistent (saved page text (failed err) busy) h = (h.0, refl)
  step-IsConsistent (deleted page text (answered _)) h = h
  step-IsConsistent (deleted page text (failed err)) h = h

  -- In every state that is reached by the events of the page of components or of subcomponents, a row
  -- is edited only while the dialog is shown, and the error is empty while a save is under way.
  pub dialog-IsConsistent : {page : Dialog K F} → Reachable e page → IsConsistent page
  unfolding IsConsistent
  dialog-IsConsistent start = (refl, refl)
  dialog-IsConsistent (follow r s) = step-IsConsistent s (dialog-IsConsistent r)

-- whether a request failed
abbrev pub is_failed {ℓ} : {A : Type ℓ} → Reply A → Bool
is_failed (answered a) = false
is_failed (failed err) = true

-- the error that the reply leaves
abbrev pub error_after {ℓ} : {A : Type ℓ} → Reply A → String → String → String
error_after (answered a) fallback error = error
error_after (failed err) fallback error = get_api_error_message err fallback

-- The answer to a save ends it and leaves the form as it is. On success the dialog is closed and the
-- list is fetched anew; on failure the dialog stays as it was, with the reason.
pub finish_save-settles {κ φ α} :
    {K : Type κ} {F : Type φ} {A : Type α} (fallback : String) (reply : Reply A) (page : Dialog K F)
    → let next = finish_save fallback reply page in
      let kept = is_failed reply in
      (next.saving ≡ false)
      × (next.form ≡ page.form)
      × (next.show_modal ≡ (kept && page.show_modal))
      × (next.editing ≡ (if kept then page.editing else none))
      × (next.error ≡ error_after reply fallback page.error)
      × (next.refetches ≡ (if kept then page.refetches else page.refetches + 1))
unfolding finish_save close_modal refetch
finish_save-settles fallback (answered a) page = (refl, refl, refl, refl, refl, refl)
finish_save-settles fallback (failed err) page = (refl, refl, refl, refl, refl, refl)
