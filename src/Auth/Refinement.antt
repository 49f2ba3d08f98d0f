-- ===== src/Auth/Refinement.antt =====
-- A session apart from its storage, as a specification of apps/web/src/lib/auth.ts.
use Prim.Native.String.{String}
use mathlib.Core.Path.{◌≡◌, refl, ap, ◌∙◌}
use mathlib.Core.Logic.{inl, inr}
use mathlib.Core.Option
use mathlib.Core.Option.{Option, none, some}
use mathlib.Core.List.{List, [], ◌∷◌}
use statora.Prelude.Tests.{Option-cases}
use statora.Types.User.{User, AuthMeResponse, StoredUserProfile}
use statora.Auth.Storage.{LocalStorage, Codec}
use statora.Auth.{
  ProfileUpdates, merge, profile_of_user, profile_of_auth_me, get_stored_token, clear_auth_session,
  set_stored_profile, store_profile_from_auth_me, set_auth_session, get_stored_profile,
  update_stored_profile,
}
use statora.Auth.Laws.{
  session-set_auth_session, get_stored_profile-set_stored_profile,
  get_stored_profile-update_stored_profile,
}

-- what a storage holds of a session
pub record Session : Type 0 where
  pub token : Option String
  pub profile : Option StoredUserProfile

-- the calls that change it
pub data Call : Type 0 where
  set_session : String → User → Call
  store_me : AuthMeResponse → Call
  update : ProfileUpdates → Call
  clear : Call

-- what each call promises
unfoldable pub promised : Call → Session → Session
unfolding profile_of_user profile_of_auth_me merge
promised (set_session token user) s = record {
  token = some token;
  profile = some (profile_of_user user);
}
promised (store_me me) s = record s { profile = some (profile_of_auth_me me) }
promised (update updates) s = record s { profile = Option.map (λ p. merge p updates) s.profile }
promised clear s = record { token = none; profile = none }

unfoldable pub promised_all : List Call → Session → Session
unfolding promised
promised_all [] s = s
promised_all (c ∷ cs) s = promised_all cs (promised c s)

module _ (json : Codec StoredUserProfile) where
  unfoldable pub session_of : LocalStorage → Session
  unfolding get_stored_token get_stored_profile
  session_of store = record {
    token = get_stored_token store;
    profile = get_stored_profile json store;
  }

  -- what each call does to the storage
  unfoldable pub call : Call → LocalStorage → LocalStorage
  unfolding set_auth_session store_profile_from_auth_me update_stored_profile clear_auth_session
  call (set_session token user) store = set_auth_session json token user store
  call (store_me me) store = store_profile_from_auth_me json me store
  call (update updates) store = update_stored_profile json updates store
  call clear store = clear_auth_session store

  unfoldable pub call_all : List Call → LocalStorage → LocalStorage
  unfolding call
  call_all [] store = store
  call_all (c ∷ cs) store = call_all cs (call c store)

  token-update :
      (updates : ProfileUpdates) (store : LocalStorage)
      → get_stored_token (update_stored_profile json updates store) ≡ get_stored_token store
  unfolding get_stored_token update_stored_profile
  token-update updates store = elim (Option-cases (get_stored_profile json store)) [
    | inl missing ↦ rw (update_stored_profile, missing)
    | inr (profile, found) ↦ rw (update_stored_profile, found)
  ]

  token-store_me :
      (me : AuthMeResponse) (store : LocalStorage)
      → get_stored_token (store_profile_from_auth_me json me store) ≡ get_stored_token store
  unfolding get_stored_token store_profile_from_auth_me set_stored_profile
  token-store_me me store = refl

  profile-store_me :
      (me : AuthMeResponse) (store : LocalStorage)
      → get_stored_profile json (store_profile_from_auth_me json me store)
        ≡ some (profile_of_auth_me me)
  unfolding store_profile_from_auth_me
  profile-store_me me store =
      get_stored_profile-set_stored_profile json (profile_of_auth_me me) store

  session_of-call :
      (c : Call) (store : LocalStorage) → session_of (call c store) ≡ promised c (session_of store)
  unfolding session_of call promised
  session_of-call (set_session token user) store =
      let session = session-set_auth_session json token user store in rw (session.0, session.2)
  session_of-call (store_me me) store = rw (profile-store_me me store, token-store_me me store)
  session_of-call (update updates) store =
      rw (token-update updates store, get_stored_profile-update_stored_profile json updates store)
  session_of-call clear store =
      unfold clear_auth_session get_stored_token get_stored_profile in refl

  -- Whatever is called, the storage holds the session that the calls promise: `session_of` carries
  -- every sequence of calls on the storage to the same sequence on the abstract session.
  pub session_of-call_all :
      (cs : List Call) (store : LocalStorage)
      → session_of (call_all cs store) ≡ promised_all cs (session_of store)
  unfolding call_all promised_all
  session_of-call_all [] store = refl
  session_of-call_all (c ∷ cs) store =
      session_of-call_all cs (call c store) ∙ ap (promised_all cs) (session_of-call c store)
