-- ===== src/Profile.antt =====
-- apps/web/src/pages/admin/AdminProfile.tsx: the state of the profile page and its handlers. Each
-- handler is run from its first statement to its last, with the answers of the server as
-- parameters.
pub mod Page
pub mod Laws
use Prim.Native.Nat.{ℕ, ◌+◌}
use Prim.Native.Char.{code}
use Prim.Native.String.{String, [], ◌∷◌}
use mathlib.Core.Bool.{Bool, true, false, not, ◌&&◌, ◌||◌}
use mathlib.Core.Option.{Option, none, some}
use mathlib.Core.List.{List}
use mathlib.Core.List
use statora.Prelude.Tests.{if◌then◌else◌, or_else, ltb}
use statora.Prelude.Equality.{◌==◌, String_eq}
use statora.Prelude.Text.{is_truthy}
use statora.Types.User.{AuthMeResponse, MfaSetupResponse, MfaVerifyResponse, StoredUserProfile}
use statora.Auth.Storage.{LocalStorage, Codec}
use statora.Profile.Page.{
  MfaStep, idle, setup_pending, setup_show_secret, verify_pending, enabled, disable_pending,
  FormState, MfaSetupState, ProfilePage, Outcome, ok, thrown, Done, done, UpdateRequest,
  VerifyRequest, by_code, by_recovery_code, Server,
}
use statora.Auth.{ProfileUpdates, set_auth_session, update_stored_profile}

-- `s.length`, in UTF-16 code units
unfoldable pub utf16_length : String → ℕ
utf16_length [] = 0
utf16_length (c ∷ s) = (if ltb 0xffff (code c) then 2 else 1) + utf16_length s

-- `profile?.mfaEnabled`
abbrev pub enabled_in : Option AuthMeResponse → Bool
enabled_in none = false
enabled_in (some profile) = profile.mfa_enabled

abbrev pub received_profile : Outcome AuthMeResponse → ProfilePage → ProfilePage
received_profile (ok user) page = record page {
  profile = some user;
  form = record page.form { username = user.username; email = user.email; current_password = "" };
  mfa_step = if user.mfa_enabled then enabled else idle;
}
received_profile (thrown message) page = record page {
  error = some (or_else message "Failed to load profile");
}

unfoldable pub fetch_profile : Server → ProfilePage → ProfilePage
fetch_profile server page =
    record (received_profile server.me (record page { loading = true; error = none })) {
      loading = false;
    }

-- what `handleProfileUpdate` does once the form is checked
pub data UpdatePlan : Type 0 where
  refuse : String → UpdatePlan
  no_changes : UpdatePlan
  send : UpdateRequest → UpdatePlan

-- `formState.username === profile?.username`
abbrev same_username : String → Option AuthMeResponse → Bool
same_username username none = false
same_username username (some profile) = username == profile.username

unfoldable pub plan_update : FormState → Option AuthMeResponse → UpdatePlan
plan_update form profile =
    if is_truthy form.new_password
    then if not (form.new_password == form.confirm_password)
      then refuse "Passwords do not match"
      else if ltb (utf16_length form.new_password) 8
      then refuse "Password must be at least 8 characters"
      else if not (is_truthy form.current_password)
      then refuse "Current password is required to set a new password"
      else send (record {
        username = form.username;
        passwords = some (form.current_password, form.new_password);
      })
    else if same_username form.username profile
    then no_changes
    else send (record { username = form.username; passwords = none })

abbrev pub updated : Outcome Done → Server → ProfilePage → ProfilePage
updated (ok _) server page = fetch_profile server (record page {
  success = some "Profile updated successfully";
  form = record page.form { current_password = ""; new_password = ""; confirm_password = "" };
})
updated (thrown message) server page = record page {
  error = some (or_else message "Failed to update profile");
}

abbrev pub follow_plan : UpdatePlan → Server → ProfilePage → ProfilePage
follow_plan (refuse message) server page = record page { error = some message }
follow_plan no_changes server page = record page { success = some "No changes to save" }
follow_plan (send request) server page = updated (server.update request) server page

unfoldable pub handle_profile_update : Server → ProfilePage → ProfilePage
unfolding plan_update fetch_profile
handle_profile_update server page =
    record (follow_plan (plan_update page.form page.profile) server
      (record page { saving = true; error = none; success = none })) { saving = false }

abbrev pub set_up : Outcome MfaSetupResponse → ProfilePage → ProfilePage
set_up (ok res) page = record page {
  mfa_setup = record page.mfa_setup {
    secret = res.secret;
    otpauth_url = res.otpauth_url;
    recovery_codes = res.recovery_codes;
  };
  mfa_step = setup_show_secret;
  mfa_success = some "MFA setup initiated. Scan the QR code or enter the secret manually.";
}
set_up (thrown message) page = record page {
  mfa_error = some (or_else message "Failed to setup MFA");
  mfa_step = idle;
}

unfoldable pub handle_mfa_setup : Server → ProfilePage → ProfilePage
handle_mfa_setup server page =
    set_up server.setup (record page { mfa_step = setup_pending; mfa_error = none })

unfoldable pub verify_outcome : Server → MfaSetupState → Outcome MfaVerifyResponse
verify_outcome server setup =
    if is_truthy setup.verification_code
    then server.verify (by_code setup.verification_code)
    else if is_truthy setup.recovery_code
    then server.verify (by_recovery_code setup.recovery_code)
    else thrown (some "Enter either a verification code or recovery code")

abbrev pub mfa_updates : Bool → Bool → ProfileUpdates
mfa_updates on verified = record {
  id = none;
  username = none;
  email = none;
  role = none;
  mfa_enabled = some on;
  mfa_verified = some verified;
}

module _ (json : Codec StoredUserProfile) where
  -- `wasEnabled` is `profile?.mfaEnabled` of the page that the handler was called on
  abbrev pub mfa_verified : Outcome MfaVerifyResponse → Bool → Server → ProfilePage → ProfilePage
  mfa_verified (ok res) was_enabled server page =
      let user = record res.user {
        mfa_enabled = some true;
        mfa_verified = some res.mfa_verified;
      } in
      record (fetch_profile server (record page {
        storage =
            update_stored_profile json (mfa_updates true res.mfa_verified)
              (set_auth_session json res.token user page.storage);
        mfa_step = enabled;
        mfa_setup = record page.mfa_setup { verification_code = ""; recovery_code = "" };
        mfa_success = some (
            if was_enabled
            then "MFA verified successfully."
            else "MFA enabled successfully! Store your recovery codes in a safe place.");
      })) { navigated = some "/admin" }
  mfa_verified (thrown message) was_enabled server page = record page {
    mfa_error = some (or_else message "Invalid verification code");
    mfa_step = if was_enabled then enabled else setup_show_secret;
  }

  unfoldable pub handle_mfa_verify : Server → ProfilePage → ProfilePage
  unfolding verify_outcome fetch_profile
  handle_mfa_verify server page =
      mfa_verified (verify_outcome server page.mfa_setup) (enabled_in page.profile) server
        (record page { mfa_step = verify_pending; mfa_error = none; mfa_success = none })

  abbrev pub mfa_disabled : Outcome Done → Server → ProfilePage → ProfilePage
  mfa_disabled (ok _) server page = fetch_profile server (record page {
    storage = update_stored_profile json (mfa_updates false false) page.storage;
    disable_password = "";
    disable_code = "";
    mfa_setup = record page.mfa_setup { verification_code = ""; recovery_code = "" };
    mfa_step = idle;
    mfa_success = some "MFA disabled successfully";
  })
  mfa_disabled (thrown message) server page = record page {
    mfa_error = some (or_else message "Failed to disable MFA");
    mfa_step = enabled;
  }

  unfoldable pub handle_mfa_disable : Server → ProfilePage → ProfilePage
  unfolding fetch_profile
  handle_mfa_disable server page =
      let outcome =
        if not (is_truthy page.disable_password) || not (is_truthy page.disable_code)
        then thrown (some "Current password and MFA code are required to disable MFA")
        else server.disable page.disable_password page.disable_code in
      mfa_disabled outcome server (record page { mfa_step = disable_pending; mfa_error = none })
