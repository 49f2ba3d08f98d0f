-- ===== src/App/Guards.antt =====
-- Lemmas on the guards of apps/web/src/App.tsx.
use Prim.Native.String.{String, ◌++◌, slice}
use mathlib.Core.Path.{◌≡◌, refl, sym, ap, ◌∙◌}
use mathlib.Core.Logic.{◌⊎◌, inl, inr}
use mathlib.Core.Bool.{Bool, true, false}
use mathlib.Core.Option.{Option, none, some}
use mathlib.Core.List.{[], ◌∷◌}
use native.Mathlib.Omega.{arith}
use text.Mathlib.TextEquality.{eq_iff}
use text.Mathlib.TextPositions.{slice-append_left}
use statora.Prelude.Tests.{Bool-cases}
use statora.Prelude.Equality.{◌==◌, String_eq}
use statora.Types.Status.{UserRole, admin, operator}
use statora.Types.User.{StoredUserProfile}
use statora.Auth.{verified}
use statora.App.{
  Address, root, history, login, admin_login, admin_activate, status_category, admin_index, profile,
  components, subcomponents, incidents, maintenance, monitors, subscribers, webhook_channels, users,
  settings, members, monitor_logs, elsewhere, Page, Rendered, page, Protection, pathname,
  protected_route, role_route, route, dashboard_page, profile_page, components_page,
  subcomponents_page, incidents_page, maintenance_page, monitors_page, monitor_logs_page,
  subscribers_page, webhook_channels_page, users_page, settings_page,
}

-- the pages behind `RoleRoute`
abbrev pub is_admin_page : Page → Bool
is_admin_page components_page = true
is_admin_page subcomponents_page = true
is_admin_page monitors_page = true
is_admin_page monitor_logs_page = true
is_admin_page subscribers_page = true
is_admin_page webhook_channels_page = true
is_admin_page users_page = true
is_admin_page settings_page = true
is_admin_page _ = false

-- the pages behind `ProtectedRoute` that ask for the second factor
abbrev pub is_verified_page : Page → Bool
is_verified_page dashboard_page = true
is_verified_page incidents_page = true
is_verified_page maintenance_page = true
is_verified_page p = is_admin_page p

-- the logs of a monitor are never at the profile's address
pub logs-ne-profile : (id : String) → (pathname (monitor_logs id) == "/admin/profile") ≡ false
unfolding pathname
logs-ne-profile id = elim (Bool-cases (pathname (monitor_logs id) == "/admin/profile")) [
  | inl same ↦ absurd (
      differ (
        sym (slice-append_left "/admin/monitors/" (id ++ "/logs"))
        ∙ ap (λ t. slice t 0 16) ((eq_iff _ _).0 same)))
  | inr other ↦ other
]
  where
    differ : ◌≡◌ {A = String} "/admin/monitors/" "/admin/profile" → ⊥
    differ e = ground (arith, eq_iff "/admin/monitors/" "/admin/profile")

module _ (p : Protection) where
  -- what lets the children of `ProtectedRoute` through
  protected_route-inv :
      (location : Address) (children : Rendered) (shown : Page)
      → protected_route p location children ≡ page shown
      → (p.auth_checked ≡ true)
        × (p.authorized ≡ true)
        × ((verified p.profile ≡ true) ⊎ ((pathname location == "/admin/profile") ≡ true))
        × (children ≡ page shown)
  unfolding protected_route
  protected_route-inv location children shown e = ground arith

role_route-inv :
    (role : Option UserRole) (children : Rendered) (shown : Page)
    → role_route (admin ∷ []) role children ≡ page shown
    → (role ≡ some admin) × (children ≡ page shown)
unfolding role_route
role_route-inv none children shown e = cc
role_route-inv (some admin) children shown e = (refl, e)
role_route-inv (some operator) children shown e = cc

module _ (p : Protection) (stored : Option StoredUserProfile) (role : Option UserRole) where
  -- the session passed every check of `ProtectedRoute`
  abbrev pub IsVerifiedSession : Type 0
  IsVerifiedSession = (p.auth_checked ≡ true) × (p.authorized ≡ true) × (verified p.profile ≡ true)

  from_route :
      (location : Address) (children : Rendered) (shown : Page)
      → (pathname location == "/admin/profile") ≡ false
      → protected_route p location children ≡ page shown
      → IsVerifiedSession
  from_route location children shown n e =
      ground (arith, protected_route-inv p location children shown)

  -- A page that asks for the second factor is rendered only to a session that was checked and
  -- authorised, and whose profile has passed its second factor.
  pub route-IsVerifiedSession :
      (location : Address) (shown : Page)
      → route p stored role location ≡ page shown
      → is_verified_page shown ≡ true
      → IsVerifiedSession
  unfolding route pathname
  route-IsVerifiedSession root shown e h = ground arith
  route-IsVerifiedSession (status_category prefix) shown e h = ground arith
  route-IsVerifiedSession history shown e h = ground arith
  route-IsVerifiedSession login shown e h = ground arith
  route-IsVerifiedSession admin_login shown e h = ground arith
  route-IsVerifiedSession admin_activate shown e h = ground arith
  route-IsVerifiedSession profile shown e h =
      let (c, a, v, same) = protected_route-inv p profile (page profile_page) shown e in
      ground arith
  route-IsVerifiedSession (monitor_logs id) shown e h =
      from_route (monitor_logs id) _ shown (logs-ne-profile id) e
  route-IsVerifiedSession (elsewhere path) shown e h = ground arith
  route-IsVerifiedSession location shown e h = from_route location _ shown refl e

  -- A page for administrators is rendered only where the stored role is `admin` as well.
  pub route-admin :
      (location : Address) (shown : Page)
      → route p stored role location ≡ page shown
      → is_admin_page shown ≡ true
      → (role ≡ some admin) × IsVerifiedSession
  unfolding route
  route-admin location shown e h =
      (at_role location e, route-IsVerifiedSession location shown e (admin_verified shown h))
    where
      admin_verified : (q : Page) → is_admin_page q ≡ true → is_verified_page q ≡ true
      admin_verified q k = ground arith

      guarded :
          (at : Address) (inner : Page)
          → protected_route p at (role_route (admin ∷ []) role (page inner)) ≡ page shown
          → role ≡ some admin
      guarded at inner k =
          (role_route-inv role (page inner) shown
            (protected_route-inv p at (role_route (admin ∷ []) role (page inner)) shown k).3).0

      free :
          (at : Address) (inner : Page)
          → is_admin_page inner ≡ false
          → protected_route p at (page inner) ≡ page shown
          → role ≡ some admin
      free at inner n k =
          let same = (protected_route-inv p at (page inner) shown k).3 in ground arith

      at_role : (at : Address) → route p stored role at ≡ page shown → role ≡ some admin
      at_role root k = ground arith
      at_role (status_category prefix) k = ground arith
      at_role history k = ground arith
      at_role login k = ground arith
      at_role admin_login k = ground arith
      at_role admin_activate k = ground arith
      at_role (elsewhere path) k = ground arith
      at_role admin_index k =
          let same = (protected_route-inv p admin_index _ shown k).3 in ground arith
      at_role profile k = free profile profile_page refl k
      at_role incidents k = free incidents incidents_page refl k
      at_role maintenance k = free maintenance maintenance_page refl k
      at_role members k = absurd (ground (arith, protected_route-inv p members _ shown k))
      at_role components k = guarded components components_page k
      at_role subcomponents k = guarded subcomponents subcomponents_page k
      at_role monitors k = guarded monitors monitors_page k
      at_role (monitor_logs id) k = guarded (monitor_logs id) monitor_logs_page k
      at_role subscribers k = guarded subscribers subscribers_page k
      at_role webhook_channels k = guarded webhook_channels webhook_channels_page k
      at_role users k = guarded users users_page k
      at_role settings k = guarded settings settings_page k
