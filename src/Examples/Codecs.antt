-- ===== src/Examples/Codecs.antt =====
-- Concrete texts for the stored profile and for the cached settings.
use Prim.Native.String.{String}
use mathlib.Core.Path.{◌≡◌, refl}
use mathlib.Core.Bool.{Bool, true, false}
use mathlib.Core.Option.{Option, none, some}
use statora.Types.Status.{UserRole, admin, operator}
use statora.Types.User.{StoredUserProfile}
use statora.Types.Settings.{
  ThemeMode, light, dark, system, FontScale, sm, md, lg, LayoutVariant, classic, compact, minimal,
  cards, Palette, Typography, Ui, Resolved, PaletteOverrides, TypographyOverrides, UiOverrides,
  Overrides,
}
use statora.Settings.Partial.{
  PartialHead, PartialBranding, PartialTheme, PartialFooter, PartialSettings,
}
use statora.Auth.Storage.{Codec}
use statora.Examples.Serial.{Serial, text, option, list, pair, via, codec}
use mathlib.Core.List.{List}

abbrev to_flag : Bool → Option String
to_flag true = some ""
to_flag false = none

abbrev of_flag : Option String → Bool
of_flag none = false
of_flag (some s) = true

pub flag_same : (b : Bool) → of_flag (to_flag b) ≡ b
flag_same true = refl
flag_same false = refl

abbrev flag : Serial Bool
flag = via (option text) to_flag of_flag flag_same

abbrev to_role : UserRole → Bool
to_role admin = true
to_role operator = false

abbrev of_role : Bool → UserRole
of_role true = admin
of_role false = operator

pub role_same : (r : UserRole) → of_role (to_role r) ≡ r
role_same admin = refl
role_same operator = refl

abbrev role : Serial UserRole
role = via flag to_role of_role role_same

abbrev to_mode : ThemeMode → Option Bool
to_mode light = none
to_mode dark = some false
to_mode system = some true

abbrev of_mode : Option Bool → ThemeMode
of_mode none = light
of_mode (some false) = dark
of_mode (some true) = system

pub mode_same : (m : ThemeMode) → of_mode (to_mode m) ≡ m
mode_same light = refl
mode_same dark = refl
mode_same system = refl

abbrev mode : Serial ThemeMode
mode = via (option flag) to_mode of_mode mode_same

abbrev to_scale : FontScale → Option Bool
to_scale sm = none
to_scale md = some false
to_scale lg = some true

abbrev of_scale : Option Bool → FontScale
of_scale none = sm
of_scale (some false) = md
of_scale (some true) = lg

pub scale_same : (m : FontScale) → of_scale (to_scale m) ≡ m
scale_same sm = refl
scale_same md = refl
scale_same lg = refl

abbrev scale : Serial FontScale
scale = via (option flag) to_scale of_scale scale_same

abbrev to_layout : LayoutVariant → Bool × Bool
to_layout classic = (true, true)
to_layout compact = (true, false)
to_layout minimal = (false, true)
to_layout cards = (false, false)

abbrev of_layout : Bool × Bool → LayoutVariant
of_layout (true, true) = classic
of_layout (true, false) = compact
of_layout (false, true) = minimal
of_layout (false, false) = cards

pub layout_same : (l : LayoutVariant) → of_layout (to_layout l) ≡ l
layout_same classic = refl
layout_same compact = refl
layout_same minimal = refl
layout_same cards = refl

abbrev layout : Serial LayoutVariant
layout = via (pair flag flag) to_layout of_layout layout_same

abbrev profile : Serial StoredUserProfile
profile =
    via (pair text (pair text (pair text (pair (option role) (pair (option flag) (option flag))))))
      (λ p. (p.id, (p.username, (p.email, (p.role, (p.mfa_enabled, p.mfa_verified))))))
      (λ t. record {
        id = t.0;
        username = t.1.0;
        email = t.1.1.0;
        role = t.1.1.1.0;
        mfa_enabled = t.1.1.1.1.0;
        mfa_verified = t.1.1.1.1.1;
      })
      (λ p. refl)

abbrev pub profile_codec : Codec StoredUserProfile
profile_codec = codec profile

abbrev palette : Serial Palette
palette =
    via (pair text (pair text (pair text text)))
      (λ p. (p.primary_color, (p.background_color, (p.text_color, p.accent_color))))
      (λ t. record {
        primary_color = t.0;
        background_color = t.1.0;
        text_color = t.1.1.0;
        accent_color = t.1.1.1;
      })
      (λ p. refl)

abbrev typography : Serial Typography
typography =
    via (pair text scale) (λ p. (p.font_family, p.font_scale))
      (λ t. record { font_family = t.0; font_scale = t.1 }) (λ p. refl)

abbrev ui : Serial Ui
ui =
    via (pair text text) (λ p. (p.card_background, p.border_color))
      (λ t. record { card_background = t.0; border_color = t.1 }) (λ p. refl)

abbrev resolved : Serial Resolved
resolved =
    via (pair palette (pair palette (pair typography ui)))
      (λ p. (p.light, (p.dark, (p.typography, p.ui))))
      (λ t. record { light = t.0; dark = t.1.0; typography = t.1.1.0; ui = t.1.1.1 }) (λ p. refl)

abbrev palette_overrides : Serial PaletteOverrides
palette_overrides =
    via (pair (option text) (pair (option text) (pair (option text) (option text))))
      (λ p. (p.primary_color, (p.background_color, (p.text_color, p.accent_color))))
      (λ t. record {
        primary_color = t.0;
        background_color = t.1.0;
        text_color = t.1.1.0;
        accent_color = t.1.1.1;
      })
      (λ p. refl)

abbrev typography_overrides : Serial TypographyOverrides
typography_overrides =
    via (pair (option text) (option scale)) (λ p. (p.font_family, p.font_scale))
      (λ t. record { font_family = t.0; font_scale = t.1 }) (λ p. refl)

abbrev ui_overrides : Serial UiOverrides
ui_overrides =
    via (pair (option text) (option text)) (λ p. (p.card_background, p.border_color))
      (λ t. record { card_background = t.0; border_color = t.1 }) (λ p. refl)

abbrev overrides : Serial Overrides
overrides =
    via
      (pair (option palette_overrides) (
        pair (option palette_overrides) (pair (option typography_overrides) (option ui_overrides))))
      (λ p. (p.light, (p.dark, (p.typography, p.ui))))
      (λ t. record { light = t.0; dark = t.1.0; typography = t.1.1.0; ui = t.1.1.1 }) (λ p. refl)

abbrev head : Serial PartialHead
head =
    via
      (pair (option text) (
        pair (option text)
          (pair (option text) (pair (option text) (option (list (pair text text)))))))
      (λ p. (p.title, (p.description, (p.keywords, (p.favicon_url, p.meta_tags)))))
      (λ t. record {
        title = t.0;
        description = t.1.0;
        keywords = t.1.1.0;
        favicon_url = t.1.1.1.0;
        meta_tags = t.1.1.1.1;
      })
      (λ p. refl)

abbrev branding : Serial PartialBranding
branding =
    via (pair (option text) (pair (option text) (pair (option text) (option text))))
      (λ p. (p.site_name, (p.logo_url, (p.background_image_url, p.hero_image_url))))
      (λ t. record {
        site_name = t.0;
        logo_url = t.1.0;
        background_image_url = t.1.1.0;
        hero_image_url = t.1.1.1;
      })
      (λ p. refl)

abbrev theme : Serial PartialTheme
theme =
    via
      (pair (option text)
        (pair (option text) (pair (option mode) (pair (option overrides) (option resolved)))))
      (λ p. (p.preset, (p.applied_preset, (p.mode, (p.overrides, p.resolved)))))
      (λ t. record {
        preset = t.0;
        applied_preset = t.1.0;
        mode = t.1.1.0;
        overrides = t.1.1.1.0;
        resolved = t.1.1.1.1;
      })
      (λ p. refl)

abbrev footer : Serial PartialFooter
footer =
    via (pair (option text) (option flag)) (λ p. (p.text, p.show_powered_by))
      (λ t. record { text = t.0; show_powered_by = t.1 }) (λ p. refl)

abbrev settings : Serial PartialSettings
settings =
    via
      (pair (option head) (
        pair (option branding) (
          pair (option theme) (
            pair (option layout)
              (pair (option footer) (pair (option text) (pair (option text) (option text))))))))
      (λ p. (
        p.head,
        (
          p.branding,
          (p.theme, (p.layout, (p.footer, (p.custom_css, (p.updated_at, p.created_at))))),
        ),
      ))
      (λ t. record {
        head = t.0;
        branding = t.1.0;
        theme = t.1.1.0;
        layout = t.1.1.1.0;
        footer = t.1.1.1.1.0;
        custom_css = t.1.1.1.1.1.0;
        updated_at = t.1.1.1.1.1.1.0;
        created_at = t.1.1.1.1.1.1.1;
      })
      (λ p. refl)

abbrev pub settings_codec : Codec (Option PartialSettings)
settings_codec = codec (option settings)

abbrev pub sections_codec : Codec (List (String × Bool))
sections_codec = codec (list (pair text flag))
