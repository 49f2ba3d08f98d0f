-- ===== src/App/Redirects.antt =====
-- Lemmas on the redirects of apps/web/src/App.tsx.
use mathlib.Core.Path.{◌≡◌, refl}
use mathlib.Core.Bool.{true}
use mathlib.Core.Option.{Option}
use native.Mathlib.Omega.{arith}
use statora.Prelude.Tests.{is_some}
use statora.Prelude.Equality.{String_eq}
use statora.Types.Status.{UserRole}
use statora.Types.User.{StoredUserProfile}
use statora.App.{Address, root, monitor_logs, Protection, follow, pathname}
use statora.App.Guards.{logs-ne-profile}

module _ (p : Protection) (stored : Option StoredUserProfile) (role : Option UserRole) where
  -- Once the check of the session is over, three renders arrive at a page from every address,
  -- whatever the session.
  pub follow-is_some :
      (location : Address)
      → p.auth_checked ≡ true
      → is_some (follow p stored role 3 location) ≡ true
  unfolding follow pathname
  follow-is_some (monitor_logs id) checked = ground (arith, logs-ne-profile id)
  follow-is_some root checked = refl
  follow-is_some location checked = ground arith
