-- ===== src/Admin/Settings/Secret.antt =====
-- The events of apps/web/src/pages/admin/AdminSettings.tsx, without typing into the field of the
-- shared secret.
use Prim.Native.String.{String}
use mathlib.Core.Path.{◌≡◌, refl, ◌∙◌}
use mathlib.Core.Logic.{inl, inr}
use mathlib.Core.Option.{Option, none, some}
use mathlib.Core.List.{List}
use statora.Prelude.Tests.{Bool-cases}
use statora.Prelude.Text.{is_truthy, trim}
use statora.Types.Settings.{StatusPageThemePresetSummary}
use statora.Settings.Partial.{field_of}
use statora.Api.{Reply, answered, failed}
use statora.Theme.{ThemePresetCatalog}
use statora.Admin.Settings.Types.{AllSettings, Received}
use statora.Admin.Settings.Normalize.{default_settings, normalize_settings}
use statora.Admin.Settings.{
  SettingsPage, payload, begin_save, begin_load, opened, finish_load, finish_save, begin_test_email,
  finish_test_email,
}

-- `settings.sso?.sharedSecret`
abbrev pub secret_in : AllSettings → Option String
secret_in s = field_of s.sso (λ o. o.shared_secret)

module _ (lower_case : String → String) (loaded_at : String) where
  -- One event: a request begins or is answered or fails, a setting other than the secret is edited,
  -- or a text is typed that is not among the settings. `now` is the time of the event.
  pub data Step : SettingsPage → SettingsPage → Type 0 where
    load : (page : SettingsPage) → Step page (begin_load page)
    loaded :
        (page : SettingsPage) (now : String) (catalog : ThemePresetCatalog)
        (reply : Reply (Option Received))
        → Step page (finish_load lower_case loaded_at now catalog reply page)
    save : (page : SettingsPage) → Step page (begin_save page)
    saved :
        (page : SettingsPage) (now : String) (presets : List StatusPageThemePresetSummary)
        (reply : Reply (Option Received))
        → Step page (finish_save lower_case loaded_at now presets reply page)
    edited :
        (page : SettingsPage) (settings : AllSettings)
        → secret_in settings ≡ secret_in page.settings
        → Step page (record page { settings = settings })
    typed :
        (page : SettingsPage) (tags password key recipient : String)
        → Step page (record page {
          meta_tags_text = tags;
          smtp_password = password;
          send_grid_api_key = key;
          test_email_to = recipient;
        })
    test : (page : SettingsPage) → Step page (begin_test_email page)
    tested :
        (page : SettingsPage) (reply : Reply (Option String))
        → Step page (finish_test_email reply page)

  pub data Reachable : SettingsPage → Type 0 where
    start :
        (now : String) (catalog : ThemePresetCatalog)
        → Reachable (opened lower_case loaded_at now catalog)
    follow : {page next : SettingsPage} → Reachable page → Step page next → Reachable next

  step-blank :
      {page next : SettingsPage}
      → Step page next
      → secret_in page.settings ≡ some ""
      → secret_in next.settings ≡ some ""
  unfolding begin_load begin_save finish_load finish_save begin_test_email finish_test_email
      normalize_settings default_settings
  step-blank (load page) h = h
  step-blank (loaded page now catalog (answered none)) h = refl
  step-blank (loaded page now catalog (answered (some input))) h = refl
  step-blank (loaded page now catalog (failed err)) h = h
  step-blank (save page) h = h
  step-blank (saved page now presets (answered none)) h = refl
  step-blank (saved page now presets (answered (some input))) h = refl
  step-blank (saved page now presets (failed err)) h = h
  step-blank (edited page settings same) h = same ∙ h
  step-blank (typed page tags password key recipient) h = h
  step-blank (test page) h = elim (Bool-cases (is_truthy (trim page.test_email_to))) [
    | inl filled ↦ rw (begin_test_email, filled) h
    | inr blank ↦ rw (begin_test_email, blank) h
  ]
  step-blank (tested page (answered message)) h = h
  step-blank (tested page (failed err)) h = h

  -- As long as nothing is typed into the field of the shared secret, whatever else is edited, loaded
  -- and saved and whatever the server answers, a save sends the secret as an empty text.
  pub payload-shared_secret :
      {page : SettingsPage} → Reachable page → (payload page).sso.shared_secret ≡ some ""
  unfolding payload opened default_settings
  payload-shared_secret (start now catalog) = refl
  payload-shared_secret (follow r s) = step-blank s (payload-shared_secret r)
