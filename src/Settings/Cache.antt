-- ===== src/Settings/Cache.antt =====
-- The cached settings of apps/web/src/lib/statusPageSettings.ts.
use Prim.Native.String.{String}
use mathlib.Core.Path.{◌≡◌, refl, ap}
use mathlib.Core.Bool.{Bool, true}
use mathlib.Core.Option
use mathlib.Core.Option.{Option, none, some}
use statora.Prelude.Tests.{if◌then◌else◌}
use statora.Prelude.Text.{is_truthy}
use statora.Types.Settings.{StatusPageSettings}
use statora.Auth.Storage.{LocalStorage, get_item, set_item, Codec}
use statora.Settings.{default_status_page_settings, normalize_status_page_settings}
use statora.Settings.Partial.{PartialSettings, as_partial, field_of}
use statora.Settings.Preset.{normalize_preset-default, normalize_preset_idem}

abbrev cache_key : String
cache_key = "Statora:status-page-settings"

-- the module's variable beside the storage
pub record SettingsState : Type 0 where
  pub bootstrapped : Option StatusPageSettings
  pub storage : LocalStorage

module _ (json : Codec (Option PartialSettings)) where
  -- the text of `null` is read as missing settings, and normalised to the default ones
  abbrev read_settings : Option String → Option StatusPageSettings
  read_settings none = none
  read_settings (some cached) =
      if is_truthy cached
      then Option.map normalize_status_page_settings (json.parse cached)
      else none

  unfoldable pub read_cached_status_page_settings : LocalStorage → Option StatusPageSettings
  read_cached_status_page_settings store = read_settings (get_item cache_key store)

  -- `writable` is false where `setItem` throws, which is ignored
  unfoldable pub cache_status_page_settings :
      Bool → StatusPageSettings → SettingsState → SettingsState
  cache_status_page_settings writable settings s =
      let normalized = normalize_status_page_settings (some (as_partial settings)) in
      record {
        bootstrapped = some normalized;
        storage =
            if writable
            then set_item cache_key (json.stringify (some (as_partial normalized))) s.storage
            else s.storage;
      }

-- Normalising settings that are normal changes nothing.
pub normalize_status_page_settings_idem :
    (settings : Option PartialSettings)
    → normalize_status_page_settings (some (as_partial (normalize_status_page_settings settings)))
      ≡ normalize_status_page_settings settings
unfolding normalize_status_page_settings default_status_page_settings as_partial
normalize_status_page_settings_idem none = rw normalize_preset-default refl
normalize_status_page_settings_idem (some settings) =
    rw (normalize_preset_idem (field_of settings.theme (λ t. t.preset)))

module _ (json : Codec (Option PartialSettings)) where
  -- Settings that were cached, where the storage accepts them, are read back as those that the
  -- module keeps beside the storage.
  pub read_cached-cache_status_page_settings :
      (settings : StatusPageSettings) (s : SettingsState)
      → read_cached_status_page_settings json
          (cache_status_page_settings json true settings s).storage
        ≡ (cache_status_page_settings json true settings s).bootstrapped
  unfolding read_cached_status_page_settings cache_status_page_settings
  read_cached-cache_status_page_settings settings s =
      let normalized = normalize_status_page_settings (some (as_partial settings)) in
      rw
        (
          json.stringify_truthy (some (as_partial normalized)),
          json.parse-stringify (some (as_partial normalized)),
        )
        (ap some (normalize_status_page_settings_idem (some (as_partial settings))))
