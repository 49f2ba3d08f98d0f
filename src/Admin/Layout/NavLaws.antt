-- ===== src/Admin/Layout/NavLaws.antt =====
-- Lemmas on the navigation of apps/web/src/pages/admin/AdminLayout.tsx beside the routes of
-- App.tsx.
use Prim.Native.String.{String}
use mathlib.Core.Path.{◌≡◌, refl}
use mathlib.Core.Bool.{Bool, true, false}
use mathlib.Core.Option.{Option, some}
use mathlib.Core.List
use mathlib.Core.List.{List, [], ◌∷◌, map}
use statora.Prelude.Tests.{or_else}
use statora.Prelude.Lists.{All}
use statora.Types.Status.{UserRole, admin, operator}
use statora.Types.User.{StoredUserProfile}
use statora.Auth.{verified}
use statora.App.{
  Address, admin_index, profile, components, subcomponents, incidents, maintenance, monitors,
  subscribers, webhook_channels, users, settings, pathname, Protection, Rendered, page, route,
  protected_route, role_route, admin_index_redirect,
}
use statora.Admin.Layout.Nav.{
  NavItem, NavSection, nav_sections, is_allowed, visible_item, visible_items, visible_nav_sections,
}

-- the targets of the links, in the order in which they stand
abbrev item_links : List NavItem → List String
item_links [] = []
item_links (item ∷ items) =
    item.to ∷ List.◌++◌ (map (λ child. child.to) (or_else item.children [])) (item_links items)

abbrev pub links : List NavSection → List String
links [] = []
links (section ∷ sections) = List.◌++◌ (item_links section.items) (links sections)

-- the addresses behind the links, for each role
abbrev pub shown : UserRole → List Address
shown admin =
    admin_index ∷ monitors ∷ components ∷ subcomponents ∷ incidents ∷ maintenance ∷ subscribers
    ∷ webhook_channels ∷ users ∷ settings ∷ profile ∷ []
shown operator = incidents ∷ maintenance ∷ profile ∷ []

abbrev pub is_page : Rendered → Bool
is_page (page p) = true
is_page _ = false

-- The links that an administrator or an operator sees are those of `shown`, and once the session is
-- checked, authorised and verified, each of them shows a page and redirects nowhere.
pub links-visible_nav_sections :
    (role : UserRole) (p : Protection) (stored : Option StoredUserProfile)
    → p.auth_checked ≡ true
    → p.authorized ≡ true
    → verified p.profile ≡ true
    → verified stored ≡ true
    → (links (visible_nav_sections (some role) nav_sections) ≡ map pathname (shown role))
      × All (λ a. is_page (route p stored (some role) a) ≡ true) (shown role)
unfolding visible_nav_sections visible_items visible_item is_allowed pathname route protected_route
    role_route admin_index_redirect
links-visible_nav_sections admin p stored c a v s = (
  refl,
  rw (protected_route, admin_index_redirect, c, a, v, s)
      (refl, (refl, (refl, (refl, (refl, (refl, (refl, (refl, (refl, (refl, (refl, tt))))))))))),
)
links-visible_nav_sections operator p stored c a v s =
    (refl, rw (protected_route, c, a, v) (refl, (refl, (refl, tt))))
