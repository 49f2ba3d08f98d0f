-- ===== src/App.antt =====
-- apps/web/src/App.tsx: the route table and the guards of the admin pages.
pub mod Guards
pub mod Redirects
use Prim.Native.Nat.{ℕ, zero, suc}
use Prim.Native.String.{String, ◌++◌}
use mathlib.Core.Bool.{Bool, true, false, not, ◌&&◌, ◌||◌}
use mathlib.Core.Option.{Option, none, some}
use mathlib.Core.List.{List, [], ◌∷◌}
use statora.Prelude.Tests.{if◌then◌else◌}
use statora.Prelude.Lists.{any}
use statora.Prelude.Equality.{◌==◌, String_eq}
use statora.Prelude.Text.{is_truthy}
use statora.Types.Status.{UserRole, admin, operator}
use statora.Types.User.{AuthMeResponse, StoredUserProfile}
use statora.Auth.Storage.{LocalStorage, get_item, Codec}
use statora.Auth.{
  get_stored_token, get_stored_profile, store_profile_from_auth_me, read_profile, truthy_text,
  truthy_flag, verified,
}
use statora.Api.{first_truthy}

-- the addresses of the route table; `elsewhere` is an address that no other row matches
pub data Address : Type 0 where
  root history login admin_login admin_activate : Address
  status_category : String → Address
  admin_index profile components subcomponents incidents maintenance : Address
  monitors subscribers webhook_channels users settings members : Address
  monitor_logs : String → Address
  elsewhere : String → Address

-- the pages that the table renders
pub data Page : Type 0 where
  status_page status_category_page history_page login_page activate_page : Page
  dashboard_page profile_page components_page subcomponents_page incidents_page : Page
  maintenance_page monitors_page monitor_logs_page subscribers_page : Page
  webhook_channels_page users_page settings_page : Page

-- what a route element comes to: a page, a `Navigate`, or the note that the check is still running
pub data Rendered : Type 0 where
  page : Page → Rendered
  navigate : Address → Rendered
  loading : Rendered

-- `location.pathname`
unfoldable pub pathname : Address → String
pathname root = "/"
pathname history = "/history"
pathname login = "/login"
pathname admin_login = "/admin/login"
pathname admin_activate = "/admin/activate"
pathname (status_category prefix) = "/status/" ++ prefix
pathname admin_index = "/admin"
pathname profile = "/admin/profile"
pathname components = "/admin/components"
pathname subcomponents = "/admin/subcomponents"
pathname incidents = "/admin/incidents"
pathname maintenance = "/admin/maintenance"
pathname monitors = "/admin/monitors"
pathname subscribers = "/admin/subscribers"
pathname webhook_channels = "/admin/webhook-channels"
pathname users = "/admin/users"
pathname settings = "/admin/settings"
pathname members = "/admin/members"
pathname (monitor_logs id) = "/admin/monitors/" ++ id ++ "/logs"
pathname (elsewhere path) = path

-- the state of `ProtectedRoute`
pub record Protection : Type 0 where
  pub auth_checked : Bool
  pub authorized : Bool
  pub profile : Option StoredUserProfile

abbrev pub is_role : UserRole → UserRole → Bool
is_role admin admin = true
is_role operator operator = true
is_role _ _ = false

module _ (json : Codec StoredUserProfile) where
  -- the profile that `readStoredRole` reads; a text that does not parse gives no role
  unfoldable pub read_stored_role : LocalStorage → Option UserRole
  read_stored_role store =
      elim (read_profile json
        (first_truthy (get_item "user_profile" store) (get_item "admin_profile" store))) [
          | none ↦ none
          | some parsed ↦ parsed.role
        ]

  -- the first render of `ProtectedRoute`
  unfoldable pub init_protection : LocalStorage → Protection
  unfolding get_stored_token get_stored_profile
  init_protection store = record {
    auth_checked = truthy_text (get_stored_token store);
    authorized = truthy_text (get_stored_token store);
    profile = get_stored_profile json store;
  }

  -- `bootstrapAuth`: `answer` is the response of /auth/me, `none` if the request is rejected.
  -- A component that was unmounted meanwhile (`cancelled`) changes nothing.
  unfoldable pub bootstrap_auth :
      Bool → Option AuthMeResponse → Protection × LocalStorage → Protection × LocalStorage
  unfolding store_profile_from_auth_me get_stored_profile
  bootstrap_auth true answer (p, store) = (p, store)
  bootstrap_auth false none (p, store) =
      (record p { authorized = false; auth_checked = true }, store)
  bootstrap_auth false (some me) (p, store) =
      let stored = store_profile_from_auth_me json me store in
      (
        record { auth_checked = true; authorized = true; profile = get_stored_profile json stored },
        stored,
      )

  -- the effect of `ProtectedRoute`
  unfoldable pub protect_effect :
      Bool → Option AuthMeResponse → Protection × LocalStorage → Protection × LocalStorage
  unfolding bootstrap_auth get_stored_token get_stored_profile
  protect_effect cancelled answer (p, store) =
      if truthy_text (get_stored_token store)
      then (
        record { auth_checked = true; authorized = true; profile = get_stored_profile json store },
        store,
      )
      else bootstrap_auth cancelled answer (p, store)

-- the body of `ProtectedRoute` around its children
unfoldable pub protected_route : Protection → Address → Rendered → Rendered
unfolding pathname
protected_route p location children =
    if not p.auth_checked
    then loading
    else if not p.authorized
    then navigate admin_login
    else if not (verified p.profile) && not (pathname location == "/admin/profile")
    then navigate profile
    else children

unfoldable pub role_route : List UserRole → Option UserRole → Rendered → Rendered
role_route allowed none children = navigate incidents
role_route allowed (some role) children =
    if any (λ r. is_role r role) allowed then children else navigate incidents

-- `profile` is the stored one here, read anew
unfoldable pub admin_index_redirect : Option StoredUserProfile → Option UserRole → Rendered
admin_index_redirect stored role = if not (verified stored) then navigate profile else elim role [
  | none ↦ page dashboard_page
  | some r ↦ if is_role operator r then navigate incidents else page dashboard_page
]

abbrev only_admin : List UserRole
only_admin = admin ∷ []

-- The table: the session is what `ProtectedRoute` holds, the stored profile and the stored role.
module _ (p : Protection) (stored : Option StoredUserProfile) (role : Option UserRole) where
  unfoldable pub route : Address → Rendered
  unfolding protected_route role_route admin_index_redirect
  route root = page status_page
  route (status_category prefix) = page status_category_page
  route history = page history_page
  route login = page login_page
  route admin_login = page login_page
  route admin_activate = page activate_page
  route admin_index = protected_route p admin_index (admin_index_redirect stored role)
  route profile = protected_route p profile (page profile_page)
  route components =
      protected_route p components (role_route only_admin role (page components_page))
  route subcomponents =
      protected_route p subcomponents (role_route only_admin role (page subcomponents_page))
  route incidents = protected_route p incidents (page incidents_page)
  route maintenance = protected_route p maintenance (page maintenance_page)
  route monitors = protected_route p monitors (role_route only_admin role (page monitors_page))
  route (monitor_logs id) =
      protected_route p (monitor_logs id) (role_route only_admin role (page monitor_logs_page))
  route subscribers =
      protected_route p subscribers (role_route only_admin role (page subscribers_page))
  route webhook_channels =
      protected_route p webhook_channels (role_route only_admin role (page webhook_channels_page))
  route users = protected_route p users (role_route only_admin role (page users_page))
  route settings = protected_route p settings (role_route only_admin role (page settings_page))
  route members = protected_route p members (navigate users)
  route (elsewhere path) = navigate root

  -- the page that is shown once every `Navigate` is followed, within a number of renders
  unfoldable pub follow : ℕ → Address → Option Page
  unfolding route
  follow zero location = none
  follow (suc n) location = elim (route location) [
    | page shown ↦ some shown
    | navigate next ↦ follow n next
    | loading ↦ none
  ]
