-- ===== src/Auth/Laws.antt =====
-- Lemmas on apps/web/src/lib/auth.ts.
use Prim.Native.String.{String}
use mathlib.Core.Path.{◌≡◌, refl, ap}
use mathlib.Core.Logic.{inl, inr}
use mathlib.Core.Bool.{false, ◌||◌}
use mathlib.Core.Option
use mathlib.Core.Option.{Option, none, some}
use native.Mathlib.Omega.{arith}
use statora.Prelude.Tests.{Option-cases, if◌then◌else◌}
use statora.Prelude.Equality.{◌==◌, String_eq}
use statora.Prelude.Text.{is_truthy}
use statora.Types.User.{User, StoredUserProfile}
use statora.Auth.Storage.{LocalStorage, Codec, set_item}
use statora.Auth.{
  token_key, profile_key, truthy_flag, verified, ProfileUpdates, merge, profile_of_user,
  get_stored_token, is_authenticated, clear_auth_session, set_stored_profile, set_auth_session,
  get_stored_profile, update_stored_profile, is_mfa_verified, requires_mfa,
}

module _ (json : Codec StoredUserProfile) where
  pub get_stored_profile-set_stored_profile :
      (profile : StoredUserProfile) (store : LocalStorage)
      → get_stored_profile json (set_stored_profile json profile store) ≡ some profile
  unfolding get_stored_profile set_stored_profile
  get_stored_profile-set_stored_profile profile store =
      rw (json.stringify_truthy profile) (json.parse-stringify profile)

  -- A stored session is read back: its token, the profile of its user and whether that is verified;
  -- it counts as authenticated exactly if the token is not empty.
  pub session-set_auth_session :
      (token : String) (user : User) (store : LocalStorage)
      → (get_stored_token (set_auth_session json token user store) ≡ some token)
        × (is_authenticated (set_auth_session json token user store) ≡ is_truthy token)
        × (get_stored_profile json (set_auth_session json token user store)
            ≡ some (profile_of_user user))
        × (is_mfa_verified json (set_auth_session json token user store)
            ≡ truthy_flag user.mfa_verified)
  unfolding set_auth_session is_authenticated is_mfa_verified get_stored_token
  session-set_auth_session token user store =
      let stored = get_stored_profile-set_stored_profile (profile_of_user user) in
      (
        refl,
        refl,
        stored (set_item token_key token store),
        ap verified (stored (set_item token_key token store)),
      )

  -- An update of the stored profile is read back as the profile merged with it, and leaves a storage
  -- that holds no profile without one.
  pub get_stored_profile-update_stored_profile :
      (updates : ProfileUpdates) (store : LocalStorage)
      → get_stored_profile json (update_stored_profile json updates store)
        ≡ Option.map (λ p. merge p updates) (get_stored_profile json store)
  unfolding update_stored_profile set_stored_profile
  get_stored_profile-update_stored_profile updates store =
      elim (Option-cases (get_stored_profile json store)) [
        | inl missing ↦ rw (missing, update_stored_profile) missing
        | inr (profile, found) ↦
            rw (found, update_stored_profile)
              (get_stored_profile-set_stored_profile (merge profile updates) store)
      ]

  -- Clearing the session leaves no session, no profile and no need of a second factor, and of the
  -- other keys it changes none.
  pub clear_auth_session-clears :
      (store : LocalStorage) (k : String)
      → (is_authenticated (clear_auth_session store) ≡ false)
        × (get_stored_profile json (clear_auth_session store) ≡ none)
        × (requires_mfa json (clear_auth_session store) ≡ false)
        × (clear_auth_session store k
            ≡ (if k == token_key || k == profile_key then none else store k))
  unfolding clear_auth_session is_authenticated get_stored_token get_stored_profile requires_mfa
  clear_auth_session-clears store k = (refl, refl, refl, ground arith)
