-- ===== src/Examples/Admin.antt =====
-- The pages of the administration at concrete forms and answers.
use Prim.Native.String.{String, ◌++◌}
use mathlib.Core.Path.{◌≡◌, refl}
use mathlib.Core.Bool.{true, false, ◌&&◌}
use mathlib.Core.Option.{Option, none, some}
use mathlib.Core.List.{List, [], ◌∷◌}
use statora.Prelude.Tests.{if◌then◌else◌, or_else, is_some}
use statora.Prelude.Equality.{◌==◌, String_eq}
use statora.Prelude.Text.{trim, is_truthy}
use statora.Prelude.Reading.{plus}
use statora.Types.Status.{ssl}
use statora.Types.Service.{Component}
use statora.Types.Monitor.{Monitor}
use statora.Content.{get_plain_text_from_rich_text}
use statora.Api.{answered}
use statora.Theme.{ThemePresetCatalog}
use statora.Admin.Requests.{put, send}
use statora.Admin.Dialog.{closed, open_with, create, start, follow}
use statora.Admin.Dialog.Laws.{IsConsistent, dialog-IsConsistent}
use statora.Admin.Components
use statora.Admin.Selection.{is_distinct, toggled}
use statora.Admin.Maintenance
use statora.Admin.Maintenance.Laws.{is_sent, submission-is_sent}
use statora.Admin.Monitors.{MonitorsPage, open_edit, submission}
use statora.Admin.Monitors.Form.{
  default_form, change_type, choose_type, unedited, then_edit, fits, Edits-fits,
}
use statora.Admin.Monitors.Laws.{body_of_monitor, submission-open_edit}
use statora.Admin.Incidents.{IncidentsPage, get_target, toggle_component, toggle_sub_component}
use statora.Admin.Incidents
use statora.Admin.Incidents.Targets.{empty_target, with_subs}
use statora.Admin.Incidents.Laws.{
  component, part, Tick, ticked_components, tick_all, tick_all-is_distinct, get_target-toggles,
}
use statora.Admin.Settings.Types.{Received}
use statora.Admin.Settings.MetaTags.{
  Tags, AreClean, parse_meta_tags_text, meta_tags_to_text, parse_meta_tags_text-meta_tags_to_text,
}
use statora.Admin.Settings.Normalize.{normalize_sso, normalize_mail_settings, normalize_settings}
use statora.Admin.Settings.{SettingsPage, opened, finish_load, payload}
use statora.Admin.Settings.Secret
use statora.Admin.Settings.Secret.{payload-shared_secret}
use statora.Admin.Settings.Laws.{mode_of, body_of, payload-finish_load}

abbrev catalog : ThemePresetCatalog
catalog = record { presets = []; has_errors = false }

abbrev lower_case : String → String
lower_case s = s

abbrev tags : Tags
tags = ("author", "Ann") ∷ ("robots", "all") ∷ []

tags-AreClean : AreClean tags
unfolding trim
tags-AreClean = (
  record {
    truthy = refl;
    trimmed = refl;
    no_colon = (refl, (refl, (refl, (refl, (refl, (refl, tt))))));
    no_line_end = (refl, (refl, (refl, (refl, (refl, (refl, tt))))));
  },
  record { trimmed = refl; no_line_end = (refl, (refl, (refl, tt))) },
  (refl, tt),
  (
    record {
      truthy = refl;
      trimmed = refl;
      no_colon = (refl, (refl, (refl, (refl, (refl, (refl, tt))))));
      no_line_end = (refl, (refl, (refl, (refl, (refl, (refl, tt))))));
    },
    record { trimmed = refl; no_line_end = (refl, (refl, (refl, tt))) },
    tt,
    tt,
  ),
)

parse_meta_tags_text-meta_tags_to_text_example :
    parse_meta_tags_text (meta_tags_to_text tags) ≡ tags
parse_meta_tags_text-meta_tags_to_text_example =
    parse_meta_tags_text-meta_tags_to_text tags tags-AreClean

abbrev received : Received
received = record {
  page = record {
    head = some (record {
      title = some "Status";
      description = none;
      keywords = none;
      favicon_url = none;
      meta_tags = some tags;
    });
    branding = none;
    theme = none;
    layout = none;
    footer = none;
    custom_css = none;
    updated_at = none;
    created_at = none;
  };
  sso = none;
  mail = none;
}

abbrev page : SettingsPage
page = opened lower_case "9000" "9001" catalog

payload-finish_load_example :
    payload (finish_load lower_case "9000" "9001" catalog (answered (some received)) page)
    ≡ body_of
        (normalize_settings lower_case "9000" "9001" (some received) []).page
        (mode_of received)
        (normalize_sso none)
        (normalize_mail_settings none)
unfolding opened
payload-finish_load_example =
    payload-finish_load lower_case "9000" "9001" catalog received page tags-AreClean refl refl

payload-shared_secret_example :
    (payload (
      finish_load lower_case "9000" "9001" catalog
        (answered (some received))
        page)).sso.shared_secret
    ≡ some ""
payload-shared_secret_example = payload-shared_secret lower_case "9000" (
    Secret.follow (Secret.start "9001" catalog)
      (Secret.loaded page "9001" catalog (answered (some received))))

Edits-fits_example : fits (change_type ssl default_form) ≡ true
unfolding fits
Edits-fits_example =
    Edits-fits (then_edit (unedited default_form) (choose_type default_form ssl)) refl

abbrev monitor : Monitor
monitor = record {
  id = "m1";
  name = "API";
  type = ssl;
  target = "example.com:443";
  advanced = none;
  ssl_thresholds = some (20 ∷ 5 ∷ []);
  interval_seconds = plus 60;
  timeout_seconds = plus 10;
  component_id = "c1";
  sub_component_id = none;
}

abbrev monitors_page : MonitorsPage
monitors_page = record { dialog = closed default_form; testing = false; test_result = none }

submission-open_edit_example :
    let dialog = (open_edit monitor monitors_page).dialog in
    submission dialog.editing dialog.form
    ≡ send (put ("/monitors/" ++ "m1") (body_of_monitor monitor))
submission-open_edit_example = submission-open_edit monitor monitors_page refl (refl, (refl, tt))

abbrev incidents_page : IncidentsPage
incidents_page = record {
  dialog = closed Incidents.default_form;
  shown = Incidents.active;
  viewing = none;
  deleting = none;
  resolving = none;
}

abbrev ticks : List Tick
ticks = component "c1" ∷ part "c2" "s1" ∷ component "c1" ∷ []

tick_all-is_distinct_example :
    is_distinct (ticked_components (tick_all ticks incidents_page)) ≡ true
tick_all-is_distinct_example = tick_all-is_distinct ticks incidents_page refl

get_target-toggles_example :
    let target = get_target "c1" incidents_page.dialog.form in
    (get_target "c1" (toggle_component "c1" incidents_page).dialog.form ≡ (
      if (◌==◌ {A = String} "c1" "c1")
      then if is_some target then none else some (empty_target "c1")
      else target))
    × (get_target "c1" (toggle_sub_component "c1" "s1" incidents_page).dialog.form ≡ (
        if (◌==◌ {A = String} "c1" "c1")
        then some (with_subs (toggled "s1") (or_else target (empty_target "c1")))
        else target))
get_target-toggles_example = get_target-toggles "c1" "s1" "c1" incidents_page

dialog-IsConsistent_example :
    IsConsistent {K = Component}
      (open_with none Components.default_form (closed Components.default_form))
unfolding Components.editor
dialog-IsConsistent_example =
    dialog-IsConsistent Components.editor (follow start (create (closed Components.default_form)))

abbrev to_iso_string : String → Option String
to_iso_string s = if is_truthy s then some s else none

abbrev planned : Maintenance.FormState
planned = record Maintenance.default_form { title = "Upgrade"; start_time = "2024-01-01T10:00" }

submission-is_sent_example : is_sent (Maintenance.submission to_iso_string none planned) ≡ (
    is_some (to_iso_string "2024-01-01T10:00")
    && is_some (to_iso_string "")
    && is_some (get_plain_text_from_rich_text planned.description_json))
submission-is_sent_example = submission-is_sent to_iso_string none planned
