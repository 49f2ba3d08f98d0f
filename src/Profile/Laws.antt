-- ===== src/Profile/Laws.antt =====
-- Lemmas on apps/web/src/pages/admin/AdminProfile.tsx.
use Prim.Native.Nat.{◌≤◌}
use Prim.Native.String.{String}
use mathlib.Core.Path.{◌≡◌, refl}
use mathlib.Core.Bool.{Bool, true, false, ◌||◌}
use mathlib.Core.Option.{Option, some}
use native.Mathlib.Omega.{arith}
use text.Mathlib.TextEquality.{eq_iff}
use statora.Prelude.Tests.{is_some}
use statora.Prelude.Text.{is_truthy}
use statora.Types.User.{AuthMeResponse, MfaSetupResponse, MfaVerifyResponse, StoredUserProfile}
use statora.Auth.Storage.{Codec}
use statora.Profile.Page.{
  MfaStep, setup_pending, verify_pending, disable_pending, FormState, ProfilePage, Outcome, ok,
  thrown, Done, UpdateRequest, Server,
}
use statora.Profile.{
  utf16_length, fetch_profile, received_profile, set_up, UpdatePlan, refuse, no_changes, send,
  updated, follow_plan, mfa_verified, mfa_disabled, plan_update, handle_profile_update,
  handle_mfa_setup, handle_mfa_verify, handle_mfa_disable, enabled_in,
}

or_true : (b : Bool) → (b || true) ≡ true
or_true b = ground arith

-- a step that waits for an answer
pub is_pending : MfaStep → Bool
is_pending setup_pending = true
is_pending verify_pending = true
is_pending disable_pending = true
is_pending _ = false

settled-fetch_profile :
    (server : Server) (page : ProfilePage)
    → is_pending page.mfa_step ≡ false
    → is_pending (fetch_profile server page).mfa_step ≡ false
unfolding fetch_profile is_pending
settled-fetch_profile server page h = ground (arith, h)

settled-set_up :
    (outcome : Outcome MfaSetupResponse) (page : ProfilePage)
    → is_pending (set_up outcome page).mfa_step ≡ false
unfolding is_pending
settled-set_up (ok res) page = refl
settled-set_up (thrown message) page = refl

module _ (json : Codec StoredUserProfile) where
  settled-mfa_verified :
      (outcome : Outcome MfaVerifyResponse) (was_enabled : Bool) (server : Server)
      (page : ProfilePage)
      → is_pending (mfa_verified json outcome was_enabled server page).mfa_step ≡ false
  unfolding is_pending
  settled-mfa_verified (ok res) was_enabled server page = settled-fetch_profile server _ refl
  settled-mfa_verified (thrown message) was_enabled server page = ground (arith)

  settled-mfa_disabled :
      (outcome : Outcome Done) (server : Server) (page : ProfilePage)
      → is_pending (mfa_disabled json outcome server page).mfa_step ≡ false
  unfolding is_pending
  settled-mfa_disabled (ok res) server page = settled-fetch_profile server _ refl
  settled-mfa_disabled (thrown message) server page = refl

  -- Whatever the server answers, setting up, verifying and disabling the second factor never leave
  -- the page in a pending step.
  pub mfa_handlers_settle :
      (server : Server) (page : ProfilePage)
      → (is_pending (handle_mfa_setup server page).mfa_step ≡ false)
        × (is_pending (handle_mfa_verify json server page).mfa_step ≡ false)
        × (is_pending (handle_mfa_disable json server page).mfa_step ≡ false)
  unfolding handle_mfa_setup handle_mfa_verify handle_mfa_disable
  mfa_handlers_settle server page = (
    settled-set_up server.setup _,
    settled-mfa_verified _ (enabled_in page.profile) server _,
    settled-mfa_disabled _ server _,
  )

-- A request that changes the password carries the current and the new password of the form; the
-- new one then equals its confirmation and has eight code units at least, and the current one is
-- not empty.
pub plan_update-passwords :
    (form : FormState) (profile : Option AuthMeResponse) (request : UpdateRequest)
    (current_password new_password : String)
    → plan_update form profile ≡ send request
    → request.passwords ≡ some (current_password, new_password)
    → (new_password ≡ form.new_password)
      × (form.confirm_password ≡ form.new_password)
      × (current_password ≡ form.current_password)
      × (8 ≤ utf16_length new_password)
      × (is_truthy current_password ≡ true)
unfolding plan_update
plan_update-passwords form profile request current_password new_password sent given =
    ground (arith, sent, given, eq_iff form.new_password form.confirm_password)

-- an update that was not refused reports the success before the profile is fetched again
success-received_profile :
    (outcome : Outcome AuthMeResponse) (page : ProfilePage)
    → (received_profile outcome page).success ≡ page.success
success-received_profile (ok user) page = refl
success-received_profile (thrown message) page = refl

reports-updated :
    (outcome : Outcome Done) (server : Server) (page : ProfilePage)
    → let next = updated outcome server page in (is_some next.error || is_some next.success) ≡ true
unfolding fetch_profile
reports-updated (ok _) server page = rw (success-received_profile server.me) (or_true _)
reports-updated (thrown message) server page = refl

reports :
    (plan : UpdatePlan) (server : Server) (page : ProfilePage)
    → let next = follow_plan plan server page in (is_some next.error || is_some next.success) ≡ true
reports (refuse message) server page = refl
reports no_changes server page = or_true _
reports (send request) server page = reports-updated (server.update request) server page

-- Saving the profile ends: the page is not saving any more, and shows an error or a success.
pub handle_profile_update-reports :
    (server : Server) (page : ProfilePage)
    → let next = handle_profile_update server page in
      (next.saving ≡ false) × ((is_some next.error || is_some next.success) ≡ true)
unfolding handle_profile_update
handle_profile_update-reports server page =
    (refl, reports (plan_update page.form page.profile) server _)
