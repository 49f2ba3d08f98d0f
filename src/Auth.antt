-- ===== src/Auth.antt =====
-- apps/web/src/lib/auth.ts: the session in `localStorage`.
pub mod Storage
pub mod Laws
pub mod Refinement
use Prim.Native.String.{String}
use mathlib.Core.Bool.{Bool, true, false, not, ◌&&◌}
use mathlib.Core.Option.{Option, none, some}
use statora.Prelude.Tests.{or_else, if◌then◌else◌}
use statora.Prelude.Text.{is_truthy}
use statora.Types.Status.{UserRole}
use statora.Types.User.{User, AuthMeResponse, StoredUserProfile}
use statora.Auth.Storage.{LocalStorage, get_item, set_item, remove_item, Codec}

abbrev pub token_key : String
token_key = "user_token"

abbrev pub profile_key : String
profile_key = "user_profile"

-- a text that is there and not empty; both `null` and '' are falsy
abbrev pub truthy_text : Option String → Bool
truthy_text none = false
truthy_text (some s) = is_truthy s

-- an optional flag that is set
abbrev pub truthy_flag : Option Bool → Bool
truthy_flag none = false
truthy_flag (some b) = b

-- `Partial<StoredUserProfile>`: a property that is there replaces the profile's
pub record ProfileUpdates : Type 0 where
  pub id : Option String
  pub username : Option String
  pub email : Option String
  pub role : Option UserRole
  pub mfa_enabled : Option Bool
  pub mfa_verified : Option Bool

abbrev pub given_or {ℓ} : {A : Type ℓ} → Option A → Option A → Option A
given_or none old = old
given_or (some a) old = some a

-- `{ ...profile, ...updates }`
unfoldable pub merge : StoredUserProfile → ProfileUpdates → StoredUserProfile
merge profile updates = record {
  id = or_else updates.id profile.id;
  username = or_else updates.username profile.username;
  email = or_else updates.email profile.email;
  role = given_or updates.role profile.role;
  mfa_enabled = given_or updates.mfa_enabled profile.mfa_enabled;
  mfa_verified = given_or updates.mfa_verified profile.mfa_verified;
}

unfoldable pub profile_of_user : User → StoredUserProfile
profile_of_user user = record {
  id = user.id;
  username = user.username;
  email = user.email;
  role = some user.role;
  mfa_enabled = user.mfa_enabled;
  mfa_verified = user.mfa_verified;
}

unfoldable pub profile_of_auth_me : AuthMeResponse → StoredUserProfile
profile_of_auth_me user = record {
  id = user.user_id;
  username = user.username;
  email = user.email;
  role = some user.role;
  mfa_enabled = some user.mfa_enabled;
  mfa_verified = some user.mfa_verified;
}

unfoldable pub get_stored_token : LocalStorage → Option String
get_stored_token store = get_item token_key store

unfoldable pub is_authenticated : LocalStorage → Bool
unfolding get_stored_token
is_authenticated store = truthy_text (get_stored_token store)

unfoldable pub clear_auth_session : LocalStorage → LocalStorage
clear_auth_session store = remove_item profile_key (remove_item token_key store)

-- `!!profile?.mfaVerified`
abbrev pub verified : Option StoredUserProfile → Bool
verified none = false
verified (some profile) = truthy_flag profile.mfa_verified

-- `!!profile && !profile.mfaVerified`
abbrev pub unverified : Option StoredUserProfile → Bool
unverified none = false
unverified (some profile) = not (truthy_flag profile.mfa_verified)

-- `JSON` on profiles
module _ (json : Codec StoredUserProfile) where
  unfoldable pub set_stored_profile : StoredUserProfile → LocalStorage → LocalStorage
  set_stored_profile profile store = set_item profile_key (json.stringify profile) store

  unfoldable pub store_profile_from_auth_me : AuthMeResponse → LocalStorage → LocalStorage
  unfolding set_stored_profile profile_of_auth_me
  store_profile_from_auth_me user store = set_stored_profile (profile_of_auth_me user) store

  unfoldable pub set_auth_session : String → User → LocalStorage → LocalStorage
  unfolding set_stored_profile profile_of_user
  set_auth_session token user store =
      set_stored_profile (profile_of_user user) (set_item token_key token store)

  -- what `getStoredProfile` makes of the text under the key
  abbrev pub read_profile : Option String → Option StoredUserProfile
  read_profile none = none
  read_profile (some raw) = if is_truthy raw then json.parse raw else none

  unfoldable pub get_stored_profile : LocalStorage → Option StoredUserProfile
  get_stored_profile store = read_profile (get_item profile_key store)

  unfoldable pub update_stored_profile : ProfileUpdates → LocalStorage → LocalStorage
  unfolding get_stored_profile merge
  update_stored_profile updates store = elim (get_stored_profile store) [
    | none ↦ store
    | some profile ↦ set_item profile_key (json.stringify (merge profile updates)) store
  ]

  unfoldable pub is_mfa_verified : LocalStorage → Bool
  unfolding get_stored_profile
  is_mfa_verified store = verified (get_stored_profile store)

  unfoldable pub requires_mfa : LocalStorage → Bool
  unfolding get_stored_profile
  requires_mfa store = unverified (get_stored_profile store)
