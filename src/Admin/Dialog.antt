-- ===== src/Admin/Dialog.antt =====
-- The editing dialog that AdminComponents.tsx, AdminSubComponents.tsx, AdminMaintenance.tsx,
-- AdminIncidents.tsx and AdminMonitors.tsx each write out: its state hooks and its handlers, over
-- what the page keeps of an edited row (`K`) and over its form (`F`).
pub mod Laws
use Prim.Native.Nat.{ℕ, ◌+◌}
use Prim.Native.String.{String}
use mathlib.Core.Path.{◌≡◌}
use mathlib.Core.Bool.{Bool, true, false}
use mathlib.Core.Option.{Option, none, some}
use mathlib.Core.List.{List, [], ◌∷◌}
use statora.Api.{Reply, answered, failed, get_api_error_message}
use statora.Admin.Requests.{Submission, send, refused}

-- `refetches` counts how often the page has fetched its list anew, `alerts` are the texts handed to
-- `alert`, the last first.
pub record Dialog {κ φ} (K : Type κ) (F : Type φ) : Type (κ ⊔ φ) where
  pub show_modal : Bool
  pub editing : Option K
  pub form : F
  pub saving : Bool
  pub error : String
  pub refetches : ℕ
  pub alerts : List String

module _ {κ φ} {K : Type κ} {F : Type φ} where
  abbrev pub closed : F → Dialog K F
  closed form = record {
    show_modal = false;
    editing = none;
    form = form;
    saving = false;
    error = "";
    refetches = 0;
    alerts = [];
  }

  unfoldable pub open_with : Option K → F → Dialog K F → Dialog K F
  open_with editing form page = record page {
    editing = editing;
    form = form;
    error = "";
    show_modal = true;
  }

  unfoldable pub close_modal : Dialog K F → Dialog K F
  close_modal page = record page { show_modal = false; editing = none }

  -- `refetch` never fails: the hook catches what its request throws
  unfoldable pub refetch : Dialog K F → Dialog K F
  refetch page = record page { refetches = page.refetches + 1 }

  -- `setSaving(true)` and `setError('')`, then what `try` does before a request
  unfoldable pub begin_save {β} : {B : Type β} → Submission B → Dialog K F → Dialog K F
  begin_save (send request) page = record page { saving = true; error = "" }
  begin_save (refused message) page = record page { saving = false; error = message }

  -- the rest of `handleSave`, with the text for a failure that names none
  unfoldable pub finish_save {α} : {A : Type α} → String → Reply A → Dialog K F → Dialog K F
  unfolding close_modal refetch
  finish_save fallback (answered _) page = record (close_modal (refetch page)) { saving = false }
  finish_save fallback (failed err) page = record page {
    error = get_api_error_message err fallback;
    saving = false;
  }

  -- `handleDelete` after its request
  unfoldable pub finish_delete {α} : {A : Type α} → String → Reply A → Dialog K F → Dialog K F
  unfolding refetch
  finish_delete fallback (answered _) page = refetch page
  finish_delete fallback (failed err) page = record page {
    alerts = get_api_error_message err fallback ∷ page.alerts;
  }

-- What a page brings to the dialog: the form of a new row, what is kept of an edited row and its
-- form, what a submitted form sends, and the text for a failure without one.
pub record Editor {ρ κ φ β} (R : Type ρ) (K : Type κ) (F : Type φ) (B : Type β)
    : Type (ρ ⊔ κ ⊔ φ ⊔ β) where
  pub blank : F
  pub kept : R → Option K
  pub form_of : R → F
  pub submission : Option K → F → Submission B
  pub failure_text : Option K → String

module _ {ρ κ φ β} {R : Type ρ} {K : Type κ} {F : Type φ} {B : Type β} (e : Editor R K F B) where
  -- One event of the page of components or of subcomponents; the other three pages have handlers
  -- beside these that set `saving` or `error`. `text` is what the handler of the request that is under
  -- way reports if that fails without a message; it was chosen when the form was submitted.
  pub data Step : Dialog K F → Dialog K F → Type (ρ ⊔ κ ⊔ φ ⊔ β) where
    create : (page : Dialog K F) → Step page (open_with none e.blank page)
    edit : (page : Dialog K F) (row : R) → Step page (open_with (e.kept row) (e.form_of row) page)
    close : (page : Dialog K F) → Step page (close_modal page)
    typed : (page : Dialog K F) (form : F) → Step page (record page { form = form })
    submit :
        (page : Dialog K F)
        → page.saving ≡ false
        → Step page (begin_save (e.submission page.editing page.form) page)
    saved :
        (page : Dialog K F) (text : String) (reply : Reply {0} Unit)
        → page.saving ≡ true
        → Step page (finish_save text reply page)
    deleted :
        (page : Dialog K F) (text : String) (reply : Reply {0} Unit)
        → Step page (finish_delete text reply page)

  pub data Reachable : Dialog K F → Type (ρ ⊔ κ ⊔ φ ⊔ β) where
    start : Reachable (closed e.blank)
    follow : {page next : Dialog K F} → Reachable page → Step page next → Reachable next
