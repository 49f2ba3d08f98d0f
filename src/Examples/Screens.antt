-- ===== src/Examples/Screens.antt =====
-- Pagination, settings, themes, rich text and monitoring at concrete inputs.
use Prim.Native.Nat.{max, ◌+◌}
use mathlib.Core.Path.{◌≡◌, refl}
use mathlib.Core.Bool.{true, false, ◌&&◌, ◌||◌}
use mathlib.Core.Logic.{◌≢◌}
use statora.Prelude.Equality.{String_eq}
use mathlib.Core.Option.{none, some}
use native.Mathlib.Omega.{arith}
use statora.Prelude.Tests.{leb, nat_eq}
use statora.Types.Settings.{StatusPageSettings}
use statora.Pagination.{contains, build_page_buttons, PageControls, pagination_controls}
use statora.Pagination.Buttons.{contains-build_page_buttons}
use statora.Pagination.Controls.{InRange, pagination_controls-InRange}
use statora.Settings.{normalize_status_page_settings}
use statora.Settings.Partial.{PartialSettings}
use statora.Settings.Cache.{
  SettingsState, read_cached_status_page_settings, cache_status_page_settings,
  read_cached-cache_status_page_settings,
}
use statora.Examples.Codecs.{settings_codec}
use statora.Examples.Data.{empty_storage}
use statora.Pagination.{SearchParams, default_options, current_page, current_limit, set_page}
use statora.Pagination.Params.{set_page-reads}
use statora.Pagination.Buttons.{IsAscending, build_page_buttons-IsAscending}

contains-build_page_buttons_example :
    contains 4 (build_page_buttons 5 9)
    ≡ (nat_eq 4 1 || nat_eq 4 9 || (leb 1 4 && leb 4 9 && leb 5 (4 + 1) && leb 4 (5 + 1)))
contains-build_page_buttons_example = contains-build_page_buttons 4 5 9 (omega arith)

abbrev controls : PageControls
controls = record {
  safe_page = 2;
  safe_total_pages = 3;
  can_go_prev = true;
  can_go_next = true;
  start = 11;
  end = 20;
  buttons = build_page_buttons 2 3;
}

pagination_controls-InRange_example : InRange controls
unfolding pagination_controls
pagination_controls-InRange_example = pagination_controls-InRange 2 3 25 10 false controls refl

abbrev plain_settings : PartialSettings
plain_settings = record {
  head = none;
  branding = none;
  theme = some (record {
    preset = some " nord ";
    applied_preset = none;
    mode = none;
    overrides = none;
    resolved = none;
  });
  layout = none;
  footer = none;
  custom_css = none;
  updated_at = none;
  created_at = none;
}

abbrev nord_settings : StatusPageSettings
nord_settings = normalize_status_page_settings (some plain_settings)

abbrev settings_state : SettingsState
settings_state = record { bootstrapped = none; storage = empty_storage }

read_cached-cache_status_page_settings_example :
    read_cached_status_page_settings settings_codec
      (cache_status_page_settings settings_codec true nord_settings settings_state).storage
    ≡ (cache_status_page_settings settings_codec true nord_settings settings_state).bootstrapped
read_cached-cache_status_page_settings_example =
    read_cached-cache_status_page_settings settings_codec nord_settings settings_state

build_page_buttons-IsAscending_example : IsAscending (build_page_buttons 5 9)
build_page_buttons-IsAscending_example = build_page_buttons-IsAscending 5 9

abbrev no_params : SearchParams
no_params = λ k. none

page-ne-limit : default_options.page_param ≢ default_options.limit_param
page-ne-limit e = cc

set_page-reads_example :
    (current_page default_options (set_page default_options no_params 3) ≡ max 1 3)
    × (current_limit default_options (set_page default_options no_params 3)
        ≡ current_limit default_options no_params)
set_page-reads_example = set_page-reads default_options no_params 3 page-ne-limit (omega arith)
