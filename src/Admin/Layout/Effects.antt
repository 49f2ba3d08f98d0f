-- ===== src/Admin/Layout/Effects.antt =====
-- Lemmas on apps/web/src/pages/admin/AdminLayout.tsx: the logout and the theme.
use Prim.Native.String.{String}
use mathlib.Core.Path.{◌≡◌, refl, ◌∙◌}
use mathlib.Core.Bool.{Bool, true, false}
use mathlib.Core.Option.{none, some}
use mathlib.Core.List.{List, [], ◌∷◌}
use native.Mathlib.Omega.{arith}
use statora.Prelude.Tests.{if◌then◌else◌}
use statora.Prelude.Equality.{==-comm, String_eq}
use statora.Types.Settings.{system}
use statora.Types.User.{StoredUserProfile}
use statora.Auth.Storage.{LocalStorage, get_item, Codec}
use statora.Auth.{is_authenticated, get_stored_token, get_stored_profile}
use statora.Api.{Reply, stored_bearer, RequestConfig, intercept_request}
use statora.App.{read_stored_role}
use statora.Admin.Selection.{includes}
use statora.Hooks.UseTheme.{
  ThemeHook, light, dark, get_stored_theme, handle_change, get_system_theme, set_theme,
  handle_change-stored, get_stored_theme-set_theme,
}
use statora.Admin.Layout.{sync_theme, handle_logout}

-- the keys of a session
abbrev pub session_keys : List String
session_keys = "admin_profile" ∷ "admin_token" ∷ "user_profile" ∷ "user_token" ∷ []

-- Logging out ends the session whether or not the server answers: no token, profile or role is
-- stored, requests go out as they are, every other key is as it was, and the login page is next.
pub handle_logout-ends :
    (json : Codec StoredUserProfile) (reply : Reply {0} Unit) (store : LocalStorage)
    (config : RequestConfig) (key : String)
    → let next = (handle_logout reply store).0 in
      (is_authenticated next ≡ false)
      × (get_stored_profile json next ≡ none)
      × (read_stored_role json next ≡ none)
      × (intercept_request next config ≡ config)
      × (get_item key next ≡ (if includes key session_keys then none else get_item key store))
      × ((handle_logout reply store).1 ≡ "/admin/login")
unfolding handle_logout is_authenticated get_stored_token get_stored_profile read_stored_role
    intercept_request stored_bearer
handle_logout-ends json reply store config key =
    let a = ==-comm key "admin_profile" in
    let b = ==-comm key "admin_token" in
    let c = ==-comm key "user_profile" in
    let d = ==-comm key "user_token" in (refl, refl, refl, refl, ground arith, refl)

-- Where the settings ask for the theme of the system and the storage accepts a text, the frame shows
-- the theme that the system has now and stores it as the preference, and a later change of the system
-- changes nothing.
pub sync_theme-ignores_system :
    (now later : Bool) (store : LocalStorage) (h : ThemeHook)
    → h.storage ≡ some store
    → let synced = sync_theme true now (some system) h in
      let current = if now then dark else light in
      (synced.theme ≡ current)
      × (get_stored_theme synced.storage ≡ some current)
      × (handle_change later synced ≡ synced)
unfolding sync_theme get_system_theme
sync_theme-ignores_system now later store h stored =
    let next = if now then dark else light in
    let kept = get_stored_theme-set_theme next h ∙ rw stored in
    (refl, kept, handle_change-stored later (set_theme true next h) next kept)
