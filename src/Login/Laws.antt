-- ===== src/Login/Laws.antt =====
-- Lemmas on apps/web/src/pages/admin/AdminLogin.tsx.
use mathlib.Core.Path.{◌≡◌, refl}
use mathlib.Core.Bool.{true, not, ◌||◌}
use mathlib.Core.Option.{none, some}
use mathlib.Core.Logic.{inl, inr}
use native.Mathlib.Omega.{arith}
use statora.Prelude.Tests.{if◌then◌else◌, is_some, Bool-cases}
use statora.Prelude.Text.{is_truthy}
use statora.Types.User.{LoginResponse, MfaVerifyResponse, StoredUserProfile}
use statora.Auth.Storage.{LocalStorage, Codec}
use statora.Auth.{truthy_flag, get_stored_token, is_mfa_verified}
use statora.Auth.Laws.{session-set_auth_session}
use statora.Api.{answered, failed}
use statora.Login.{
  LoginPage, Step, typed, submit, submitted, verify, cancel, Reachable, start, follow, begin_submit,
  begin_mfa_verify, signed_in, finish_submit, finish_mfa_verify, handle_mfa_cancel, opened,
}
use statora.Login as Login

-- the pending token and user stand together, and the `error` of the page is empty while a login is
-- under way
pub IsConsistent : LoginPage → Type 0
IsConsistent page =
    (is_some page.pending_token ≡ is_some page.pending_user)
    × ((not page.loading || not (is_truthy page.error)) ≡ true)

module _ (json : Codec StoredUserProfile) where
  step-IsConsistent :
      {page next : LoginPage} → Step json page next → IsConsistent page → IsConsistent next
  unfolding IsConsistent begin_submit begin_mfa_verify signed_in finish_submit finish_mfa_verify
      handle_mfa_cancel
  step-IsConsistent (typed page e p c) h = h
  step-IsConsistent (submit page) h = (h.0, refl)
  step-IsConsistent (submitted page (answered res) l) h = ground (arith, h.0, h.1)
  step-IsConsistent (submitted page (failed err) l) h = (h.0, refl)
  step-IsConsistent (verify page) h = ground (arith, h.0, h.1)
  step-IsConsistent (Login.verified page (answered res) l) h = (refl, h.1)
  step-IsConsistent (Login.verified page (failed err) l) h = h
  step-IsConsistent (cancel page) h = (refl, h.1)

  -- In every state that the page reaches from its first one, the pending token and the pending user
  -- stand together or are both missing, and the state `error` is empty while a login is under way.
  -- What the address says of a failed sign-on is not in that state.
  pub reachable-IsConsistent :
      (storage : LocalStorage) {page : LoginPage} → Reachable json storage page → IsConsistent page
  unfolding IsConsistent
  reachable-IsConsistent storage start = (refl, refl)
  reachable-IsConsistent storage (follow r s) =
      step-IsConsistent s (reachable-IsConsistent storage r)

  -- When a login is answered, the page stores the token with a verified profile and goes to the
  -- admin page if no second factor is required; otherwise session and place stay as they were.
  pub finish_submit-session :
      (res : LoginResponse) (page : LoginPage)
      → let next = finish_submit json (answered res) page in
        let required = truthy_flag res.mfa_required in
        (get_stored_token next.storage
          ≡ (if required then get_stored_token page.storage else some res.token))
        × (is_mfa_verified json next.storage
            ≡ (if required then is_mfa_verified json page.storage else true))
        × (next.navigated ≡ (if required then page.navigated else some "/admin"))
  unfolding finish_submit signed_in
  finish_submit-session res page =
      let user = record res.user { mfa_verified = some true } in
      let session = session-set_auth_session json res.token user page.storage in
      elim (Bool-cases (truthy_flag res.mfa_required)) [
        | inl on ↦ rw on (refl, refl, refl)
        | inr off ↦ rw off (session.0, session.3, refl)
      ]

  -- When a second factor is accepted, the page stores the answer's token and a profile that is
  -- verified exactly if the answer says so, and nothing is pending any more.
  pub finish_mfa_verify-session :
      (res : MfaVerifyResponse) (page : LoginPage)
      → let next = finish_mfa_verify json (answered res) page in
        (get_stored_token next.storage ≡ some res.token)
        × (is_mfa_verified json next.storage ≡ res.mfa_verified)
        × (next.pending_token ≡ none)
  unfolding finish_mfa_verify
  finish_mfa_verify-session res page =
      let user = record res.user {
        mfa_enabled = some true;
        mfa_verified = some res.mfa_verified;
      } in
      let session = session-set_auth_session json res.token user page.storage in
      (session.0, session.3, refl)
