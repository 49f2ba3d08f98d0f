-- ===== src/Admin/Layout/Nav.antt =====
-- apps/web/src/pages/admin/AdminLayout.tsx: the navigation, and what of it a role sees.
use Prim.Native.String.{String, ◌++◌}
use mathlib.Core.Bool.{Bool, true, false, not, ◌&&◌, ◌||◌}
use mathlib.Core.Option
use mathlib.Core.Option.{Option, none, some}
use mathlib.Core.List.{List, [], ◌∷◌, map}
use text.Mathlib.Text.{starts_with}
use statora.Prelude.Tests.{if◌then◌else◌}
use statora.Prelude.Equality.{◌==◌, String_eq}
use statora.Prelude.Lists.{filter, any}
use statora.Types.Status.{UserRole, operator}
use statora.Admin.Selection.{includes}

pub record NavChildItem : Type 0 where
  pub to : String
  pub label : String
  pub end : Bool

-- without the icon
pub record NavItem : Type 0 where
  pub to : String
  pub label : String
  pub end : Bool
  pub children : Option (List NavChildItem)

pub record NavSection : Type 0 where
  pub label : String
  pub items : List NavItem

abbrev link : String → String → Bool → NavItem
link to label end = record { to = to; label = label; end = end; children = none }

abbrev pub nav_sections : List NavSection
nav_sections =
    record {
      label = "Monitoring";
      items =
          link "/admin" "Dashboard" true
          ∷ link "/admin/monitors" "Monitors" false
          ∷ record {
            to = "/admin/components";
            label = "Components";
            end = false;
            children = some (
                record { to = "/admin/subcomponents"; label = "Sub-Components"; end = false } ∷ []);
          }
          ∷ [];
    }
    ∷ record {
      label = "Operations";
      items =
          link "/admin/incidents" "Incidents" false
          ∷ link "/admin/maintenance" "Maintenance" false
          ∷ [];
    }
    ∷ record {
      label = "Notifications";
      items =
          link "/admin/subscribers" "Subscribers" false
          ∷ link "/admin/webhook-channels" "Webhook Channels" false
          ∷ [];
    }
    ∷ record {
      label = "System";
      items =
          link "/admin/users" "Users" false
          ∷ link "/admin/settings" "Settings" false
          ∷ link "/admin/profile" "My Profile" true
          ∷ [];
    }
    ∷ []

abbrev pub operator_allowed : List String
operator_allowed = "/admin/incidents" ∷ "/admin/maintenance" ∷ []

abbrev pub always_allowed : List String
always_allowed = "/admin/profile" ∷ []

unfoldable pub is_route_active : String → String → Bool → Bool
is_route_active pathname to end =
    if end then pathname == to else (pathname == to) || starts_with pathname (to ++ "/")

abbrev active_child : String → Option (List NavChildItem) → Bool
active_child pathname none = false
active_child pathname (some children) =
    any (λ child. is_route_active pathname child.to child.end) children

unfoldable pub is_section_active : String → NavSection → Bool
unfolding is_route_active
is_section_active pathname section =
    any (λ item. is_route_active pathname item.to item.end || active_child pathname item.children)
      section.items

-- `OPERATOR_ALLOWED.has(to) || ALWAYS_ALLOWED.has(to)`
unfoldable pub is_allowed : String → Bool
is_allowed to = includes to operator_allowed || includes to always_allowed

abbrev is_empty {ℓ} : {A : Type ℓ} → Option (List A) → Bool
is_empty none = true
is_empty (some []) = true
is_empty (some (x ∷ xs)) = false

-- what an operator sees of an item
unfoldable pub visible_item : NavItem → Option NavItem
unfolding is_allowed
visible_item item =
    let visible_children =
      Option.map (λ children. filter (λ child. is_allowed child.to) children) item.children in
    if not (is_allowed item.to) && is_empty visible_children
    then none
    else some (record item { children = visible_children })

unfoldable pub visible_items : List NavItem → List NavItem
unfolding visible_item
visible_items [] = []
visible_items (item ∷ items) =
    let rest = visible_items items in
    elim (visible_item item) [ none ↦ rest | some next ↦ next ∷ rest ]

abbrev some_items : List NavItem → Bool
some_items [] = false
some_items (item ∷ items) = true

-- the sections as `role` sees them, `none` for `null`
unfoldable pub visible_nav_sections : Option UserRole → List NavSection → List NavSection
unfolding visible_items
visible_nav_sections (some operator) sections =
    filter (λ section. some_items section.items)
      (map (λ (section : NavSection). record section { items = visible_items section.items })
        sections)
visible_nav_sections _ sections = sections
