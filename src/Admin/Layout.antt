-- ===== src/Admin/Layout.antt =====
-- apps/web/src/pages/admin/AdminLayout.tsx: the frame of the admin pages, its theme and its logout.
pub mod Nav
pub mod NavLaws
pub mod Sections
pub mod Laws
pub mod Effects
use Prim.Native.String.{String}
use mathlib.Core.Bool.{Bool, true, false}
use mathlib.Core.Option.{Option, none, some}
use statora.Types.Settings.{ThemeMode, system}
use statora.Types.Settings
use statora.Auth.Storage.{LocalStorage, remove_item}
use statora.Api.{Reply, answered, failed}
use statora.Admin.Requests.{Request, patch}
use statora.Hooks.UseTheme.{
  ThemeName, light, dark, other_theme, ThemeHook, get_system_theme, set_theme,
}

-- The effect that takes over the mode of the settings, with the answer of `matchMedia`; `accepted`
-- says whether the storage accepts the preference.
unfoldable pub sync_theme : Bool → Bool → Option ThemeMode → ThemeHook → ThemeHook
unfolding set_theme get_system_theme
sync_theme accepted system_dark none h = h
sync_theme accepted system_dark (some system) h =
    set_theme accepted (get_system_theme (some system_dark)) h
sync_theme accepted system_dark (some Settings.light) h = set_theme accepted light h
sync_theme accepted system_dark (some Settings.dark) h = set_theme accepted dark h

-- what `handleToggleTheme` sends, the mode of the theme that it sets
unfoldable pub toggle_request : ThemeHook → Request ThemeName
toggle_request h = patch "/settings/status-page" (other_theme h.theme)

unfoldable pub handle_toggle_theme : Bool → ThemeHook → ThemeHook
unfolding set_theme
handle_toggle_theme accepted h = set_theme accepted (other_theme h.theme) h

-- Logging out, whether the request is answered or fails: the storage, and the path handed to
-- `navigate`.
unfoldable pub handle_logout : Reply {0} Unit → LocalStorage → LocalStorage × String
handle_logout reply store = (
  remove_item "admin_profile"
      (remove_item "admin_token" (remove_item "user_profile" (remove_item "user_token" store))),
  "/admin/login",
)
