-- ===== src/Public/Status.antt =====
-- apps/web/src/pages/StatusPage.tsx: the live events, the counts and the subscription.
use Prim.Native.Nat.{ℕ, ◌+◌, max}
use Prim.Native.Char.{Char, code}
use Prim.Native.String.{String, [], ◌∷◌}
use mathlib.Core.Path.{◌≡◌, refl, ap, ◌∙◌}
use mathlib.Core.Logic.{inl, inr}
use mathlib.Core.Bool.{Bool, true, false, not, ◌&&◌, ◌||◌}
use mathlib.Core.Option.{Option, none, some}
use mathlib.Core.List.{List}
use statora.Prelude.Tests.{nat_eq, ltb, if◌then◌else◌, or_else, is_some, Bool-cases}
use statora.Prelude.Equality.{◌==◌, String_eq, Option_eq}
use statora.Prelude.Lists.{length, filter}
use statora.Prelude.Text.{is_space, is_truthy, trim}
use native.Mathlib.Omega.{arith}
use statora.Types.Status.{ComponentStatus, operational, MaintenanceStatus, completed}
use statora.Types.Incident.{Incident, Maintenance}
use statora.Types.Settings.{StatusPageSettings}
use statora.Auth.Storage.{Codec}
use statora.Api.{Reply, answered, failed, get_api_error_message}
use statora.Settings.{parse_status_page_settings_payload, normalize_status_page_settings}
use statora.Settings.Partial.{PartialSettings}
use statora.Settings.Cache.{
  SettingsState, cache_status_page_settings, read_cached_status_page_settings,
  normalize_status_page_settings_idem, read_cached-cache_status_page_settings,
}
use statora.Admin.Requests.{Request, post}
use statora.Admin.Selection.{includes}

unfoldable pub has_incident_severity : ComponentStatus → Bool
has_incident_severity operational = false
has_incident_severity _ = true

-- The settings that are shown, those that are cached, and how often each list was fetched anew.
pub record LivePage : Type 0 where
  pub settings : StatusPageSettings
  pub cache : SettingsState
  pub component_fetches : ℕ
  pub incident_fetches : ℕ
  pub summary_fetches : ℕ

abbrev pub component_events : List String
component_events = List.◌∷◌ "component_updated" (List.◌∷◌ "component_created" List.[])

abbrev pub incident_events : List String
incident_events = List.◌∷◌ "incident_created" (
    List.◌∷◌ "incident_updated"
      (List.◌∷◌ "incident_resolved" (List.◌∷◌ "incident_update_added" List.[])))

abbrev on_component_event : String → LivePage → LivePage
on_component_event type page =
    if includes type component_events
    then record page {
      component_fetches = page.component_fetches + 1;
      summary_fetches = page.summary_fetches + 1;
    }
    else page

abbrev on_incident_event : String → LivePage → LivePage
on_incident_event type page =
    if includes type incident_events
    then record page {
      incident_fetches = page.incident_fetches + 1;
      summary_fetches = page.summary_fetches + 1;
    }
    else page

-- a payload with its four parts is accepted
parse_complete :
    (payload : PartialSettings)
    → (is_some payload.head
        && is_some payload.branding
        && is_some payload.theme
        && is_some payload.footer)
      ≡ true
    → parse_status_page_settings_payload (some payload)
      ≡ some (normalize_status_page_settings (some payload))
unfolding parse_status_page_settings_payload
parse_complete payload h = ground arith

module _ (json : Codec (Option PartialSettings)) where
  -- `setSettings(settings)` and `cacheStatusPageSettings(settings)`
  abbrev take_settings : Bool → Option StatusPageSettings → LivePage → LivePage
  take_settings writable none page = page
  take_settings writable (some settings) page = record page {
    settings = settings;
    cache = cache_status_page_settings json writable settings page.cache;
  }

  -- `writable` says whether the storage accepts the settings; `payload` is `event.data`
  unfoldable pub handle_ws_message : Bool → String → Option PartialSettings → LivePage → LivePage
  unfolding parse_status_page_settings_payload cache_status_page_settings
  handle_ws_message writable type payload page =
      let told = on_incident_event type (on_component_event type page) in
      if type == "status_page_settings_updated"
      then take_settings writable (parse_status_page_settings_payload payload) told
      else told

  -- the effect that runs when settings were fetched
  unfoldable pub take_fetched : Bool → Option PartialSettings → LivePage → LivePage
  unfolding normalize_status_page_settings cache_status_page_settings
  take_fetched writable none page = page
  take_fetched writable (some data_shown) page =
      take_settings writable (some (normalize_status_page_settings (some data_shown))) page

  -- settings that were normalised are read back from the cache as they are shown
  take_settings-cached :
      (data_shown : Option PartialSettings) (page : LivePage)
      → let shown = normalize_status_page_settings data_shown in
        let next = take_settings true (some shown) page in
        read_cached_status_page_settings json next.cache.storage ≡ some next.settings
  unfolding cache_status_page_settings
  take_settings-cached data_shown page =
      read_cached-cache_status_page_settings json (normalize_status_page_settings data_shown)
        page.cache
      ∙ ap some (normalize_status_page_settings_idem data_shown)

  -- Settings that are fetched, or that come with an event and have their four parts, are shown
  -- normalised, and where the storage accepts them they are read back from it as they are shown.
  pub settings-cached :
      (data_shown : PartialSettings) (page : LivePage)
      → (is_some data_shown.head
          && is_some data_shown.branding
          && is_some data_shown.theme
          && is_some data_shown.footer)
        ≡ true
      → let fetched = take_fetched true (some data_shown) page in
        let told = handle_ws_message true "status_page_settings_updated" (some data_shown) page in
        (fetched.settings ≡ normalize_status_page_settings (some data_shown))
        × (told.settings ≡ normalize_status_page_settings (some data_shown))
        × (read_cached_status_page_settings json fetched.cache.storage ≡ some fetched.settings)
        × (read_cached_status_page_settings json told.cache.storage ≡ some told.settings)
  unfolding take_fetched handle_ws_message
  settings-cached data_shown page complete =
      let parsed = parse_complete data_shown complete in
      let cached = take_settings-cached (some data_shown) page in
      (refl, rw parsed, cached, rw parsed cached)

abbrev is_completed : MaintenanceStatus → Bool
is_completed completed = true
is_completed _ = false

unfoldable pub upcoming_maintenance : Option (List Maintenance) → List Maintenance
upcoming_maintenance windows = filter (λ m. not (is_completed m.status)) (or_else windows List.[])

unfoldable pub has_active_incidents : List Incident → ComponentStatus → Bool
unfolding has_incident_severity
has_active_incidents active overall = ltb 0 (length active) || has_incident_severity overall

-- by the numbers of the components' subcomponents
unfoldable pub total_services : List ℕ → ℕ
total_services List.[] = 0
total_services (List.◌∷◌ parts components) = max parts 1 + total_services components

-- /^[^\s@]+$/ without its end: the text has neither white space nor `@`
abbrev no_gap : String → Bool
no_gap [] = true
no_gap (c ∷ s) = not (is_space c) && not (nat_eq (code c) (code "@")) && no_gap s

-- a dot that stands neither first nor last, where the flag says that a character went before
abbrev inner_dot : Bool → String → Bool
inner_dot begun [] = false
inner_dot begun (c ∷ s) = (begun && nat_eq (code c) (code ".") && is_truthy s) || inner_dot true s

abbrev is_domain : String → Bool
is_domain s = no_gap s && inner_dot false s

-- the texts around the first `@`, tested; the flag says that a character went before
is_email_from : Bool → String → Bool
unfolding is_space
is_email_from begun [] = false
is_email_from begun (c ∷ s) =
    let rest = is_email_from true s in
    if nat_eq (code c) (code "@") then begun && is_domain s else not (is_space c) && rest

-- `/^[^\s@]+@[^\s@]+\.[^\s@]+$/.test(email)`
unfoldable pub is_email : String → Bool
unfolding is_email_from
is_email email = is_email_from false email

-- the state hooks of the subscription
pub record Subscription : Type 0 where
  pub is_open : Bool
  pub email : String
  pub submitting : Bool
  pub success : Option String
  pub error : Option String

unfoldable pub open_subscribe : Subscription → Subscription
open_subscribe s = record s { success = none; error = none; email = ""; is_open = true }

unfoldable pub subscribe_request : Subscription → Option (Request String)
unfolding trim is_email
subscribe_request s =
    if is_email (trim s.email) then some (post "/subscribe" (trim s.email)) else none

unfoldable pub begin_subscribe : Subscription → Subscription
unfolding trim is_email
begin_subscribe s =
    if is_email (trim s.email)
    then record s { submitting = true; error = none }
    else record s { error = some "Please enter a valid email address." }

unfoldable pub finish_subscribe : Reply {0} Unit → Subscription → Subscription
finish_subscribe (answered _) s = record s {
  success = some "Check your inbox! We've sent a verification link to confirm your subscription.";
  email = "";
  submitting = false;
}
finish_subscribe (failed err) s = record s {
  error = some (get_api_error_message err "Failed to subscribe. Please try again.");
  submitting = false;
}

email_tests :
    (is_email "ann@example.org" ≡ true)
    × (is_email "ann@example" ≡ false)
    × (is_email "ann@@example.org" ≡ false)
    × (is_email "@example.org" ≡ false)
    × (is_email "a b@example.org" ≡ false)
    × (is_email "ann@.org" ≡ false)
    × (is_email "ann@example." ≡ false)
unfolding is_email is_email_from is_space
email_tests = (refl, refl, refl, refl, refl, refl, refl)

-- a text without white space
abbrev pub has_no_space : String → Bool
has_no_space [] = true
has_no_space (c ∷ s) = not (is_space c) && has_no_space s

no_gap-has_no_space : (s : String) → no_gap s ≡ true → has_no_space s ≡ true
no_gap-has_no_space [] h = refl
no_gap-has_no_space (c ∷ s) h = ground (arith, no_gap-has_no_space s)

at-is_space : (c : Char) → nat_eq (code c) (code "@") ≡ true → is_space c ≡ false
unfolding is_space
at-is_space c h = ground arith

is_email_from-has_no_space :
    (begun : Bool) (s : String) → is_email_from begun s ≡ true → has_no_space s ≡ true
unfolding is_email_from
is_email_from-has_no_space begun [] h = refl
is_email_from-has_no_space begun (c ∷ s) h =
    ground (arith, at-is_space c, no_gap-has_no_space s, is_email_from-has_no_space true s)

-- A subscription is sent exactly if the trimmed text is an address, and then waits without an error;
-- an address has no white space, and what is refused leaves an error.
pub begin_subscribe-sends :
    (s : Subscription)
    → let next = begin_subscribe s in
      let ok = is_email (trim s.email) in
      (is_some (subscribe_request s) ≡ ok)
      × (is_some next.error ≡ not ok)
      × ((not ok || has_no_space (trim s.email)) ≡ true)
      × ((not ok || next.submitting) ≡ true)
unfolding begin_subscribe subscribe_request is_email
begin_subscribe-sends s = elim (Bool-cases (is_email_from false (trim s.email))) [
  | inl valid ↦
      rw (valid, is_email_from-has_no_space false (trim s.email) valid) (refl, refl, refl, refl)
  | inr invalid ↦ rw invalid (refl, refl, refl, refl)
]
