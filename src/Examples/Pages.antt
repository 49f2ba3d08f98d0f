-- ===== src/Examples/Pages.antt =====
-- The layout, the hooks and the public pages at concrete states.
use Prim.Native.Nat.{◌≤◌}
use mathlib.Core.Path.{◌≡◌, refl}
use mathlib.Core.Bool.{true, false}
use mathlib.Core.Option.{none, some}
use mathlib.Core.List.{List, [], ◌∷◌, map, Perm}
use statora.Prelude.Tests.{if◌then◌else◌}
use statora.Prelude.Equality.{String_eq}
use statora.Prelude.Lists.{All, filter}
use statora.Types.Status.{operator, operational, investigating, resolved, monitoring}
use statora.Types.Service.{CategoryServiceStatus}
use statora.Types.Incident.{Incident}
use statora.Utils.Dates.{local_date}
use statora.Auth.{is_authenticated, get_stored_profile}
use statora.Auth.Storage.{get_item}
use statora.Auth.Refinement.{
  Call, set_session, clear, session_of, call_all, promised_all, session_of-call_all,
}
use statora.Api.{axios_error, failed, RequestConfig, intercept_request}
use statora.App.{Protection, pathname, read_stored_role, route}
use statora.Admin.Selection.{includes}
use statora.Admin.Layout.{handle_logout, sync_theme}
use statora.Admin.Layout.Effects.{session_keys, handle_logout-ends, sync_theme-ignores_system}
use statora.Admin.Layout.Nav.{nav_sections, visible_nav_sections}
use statora.Admin.Layout.NavLaws.{links, shown, is_page, links-visible_nav_sections}
use statora.Hooks.UseTheme.{
  ThemeHook, get_stored_theme, handle_change, use_theme, toggle_theme, toggled, IsSettled,
  reachable-IsSettled,
}
use statora.Hooks.UseTheme
use statora.Hooks.UseWebSocket.{Hook, Events, no_event, mount, unmount, total, unmount-goes_on}
use statora.Hooks.UseWebSocket
use statora.Public.History.{QuarterCursor, group_incidents_by_quarter_months}
use statora.Public.History.Laws.{in_quarter, group_incidents_by_quarter_months-perm}
use statora.Public.History.Laws
use statora.Public.Category.{
  display_status, status_of_rank, max_rank, active_incidents, display_status-worst,
}
use statora.Public.Carousel.{
  ahead, move, first_state, CarouselState, InRange, clicked, reachable-InRange,
}
use statora.Public.Carousel
use statora.Examples.Codecs.{profile_codec}
use statora.Examples.Data.{empty_storage, ann, ann_profile, signed_in_storage, dates, incident}
use statora.Admin.Layout.Sections.{States}

abbrev calls : List Call
calls = set_session "t1" ann ∷ clear ∷ set_session "t2" ann ∷ []

session_of-call_all_example :
    session_of profile_codec (call_all profile_codec calls empty_storage)
    ≡ promised_all calls (session_of profile_codec empty_storage)
session_of-call_all_example = session_of-call_all profile_codec calls empty_storage

abbrev config : RequestConfig
config = record { url = "/auth/logout"; authorization = none }

handle_logout-ends_example :
    let next = (handle_logout (failed (axios_error none)) signed_in_storage).0 in
    (is_authenticated next ≡ false)
    × (get_stored_profile profile_codec next ≡ none)
    × (read_stored_role profile_codec next ≡ none)
    × (intercept_request next config ≡ config)
    × (get_item "theme" next
        ≡ (if includes "theme" session_keys then none else get_item "theme" signed_in_storage))
    × ((handle_logout (failed (axios_error none)) signed_in_storage).1 ≡ "/admin/login")
handle_logout-ends_example =
    handle_logout-ends profile_codec (failed (axios_error none)) signed_in_storage config "theme"

abbrev checked : Protection
checked = record { auth_checked = true; authorized = true; profile = some ann_profile }

links-visible_nav_sections_example :
    (links (visible_nav_sections (some operator) nav_sections) ≡ map pathname (shown operator))
    × All
        (λ a. is_page (route checked (some ann_profile) (some operator) a) ≡ true)
        (shown operator)
links-visible_nav_sections_example =
    links-visible_nav_sections operator checked (some ann_profile) refl refl refl refl

abbrev light_theme : ThemeHook
light_theme = record { theme = UseTheme.light; storage = some empty_storage; root_dark = false }

sync_theme-ignores_system_example :
    let synced = sync_theme true true (some statora.Types.Settings.system) light_theme in
    (synced.theme ≡ UseTheme.dark)
    × (get_stored_theme synced.storage ≡ some UseTheme.dark)
    × (handle_change false synced ≡ synced)
sync_theme-ignores_system_example =
    sync_theme-ignores_system true false empty_storage light_theme refl

reachable-IsSettled_example :
    IsSettled true (toggle_theme true (use_theme true (some empty_storage) false))
reachable-IsSettled_example = reachable-IsSettled (
    UseTheme.follow (UseTheme.start true false (some empty_storage))
      (toggled true (use_theme true (some empty_storage) false)))

unmount-goes_on_example :
    (1 ≤ total (unmount mount))
    × ((later : Hook) × Events (unmount mount) later × (1 ≤ later.sockets))
unfolding mount
unmount-goes_on_example = unmount-goes_on UseWebSocket.start refl (no_event (unmount mount))

abbrev incidents : List Incident
incidents =
    incident "i1" investigating "9000"
    ∷ incident "i2" resolved "9010"
    ∷ incident "i3" monitoring "9100"
    ∷ []

abbrev cursor : QuarterCursor
cursor = record { year = 2024; quarter = 0 }

group_incidents_by_quarter_months-perm_example :
    Perm
      (Laws.shown dates cursor
        (group_incidents_by_quarter_months dates (λ y m. "month") incidents cursor))
      (filter (λ i. in_quarter cursor (local_date dates i.created_at)) incidents)
group_incidents_by_quarter_months-perm_example =
    group_incidents_by_quarter_months-perm dates cursor (λ y m. "month") incidents

abbrev service : CategoryServiceStatus
service = record {
  id = "c1";
  name = "API";
  description = "";
  status = operational;
  updated_at = "9000";
  uptime30d = none;
  uptime_history = [];
}

display_status-worst_example :
    display_status service incidents
    ≡ status_of_rank (max_rank (active_incidents incidents)) service.status
display_status-worst_example = display_status-worst service incidents

reachable-InRange_example : InRange (3, record first_state { current_index = move ahead 3 0 })
reachable-InRange_example =
    reachable-InRange 3 (Carousel.follow Carousel.start (clicked 3 ahead first_state))

abbrev open_sections : States
open_sections = ("monitoring", false) ∷ ("system", true) ∷ []
