-- ===== src/Api/Laws.antt =====
-- Lemmas on the interceptors of apps/web/src/lib/api.ts.
use Prim.Native.String.{String}
use mathlib.Core.Path.{◌≡◌, refl}
use mathlib.Core.Bool.{true, false}
use mathlib.Core.Option.{none, some}
use statora.Prelude.Tests.{if◌then◌else◌}
use statora.Prelude.Equality.{String_eq}
use statora.Types.User.{StoredUserProfile}
use statora.Auth.Storage.{get_item, Codec}
use statora.Auth.{clear_auth_session, is_authenticated, get_stored_profile}
use statora.Api.{
  Failure, answered, Browser, get_api_error_status, is_admin_route, RequestConfig,
  intercept_request, intercept_failure,
}
use statora.App.{read_stored_role}
use statora.Admin.Selection.{includes}
use statora.Admin.Layout.{handle_logout}
use statora.Admin.Layout.Effects.{session_keys, handle_logout-ends}

module _ (json : Codec StoredUserProfile) where
  -- A 401 on an admin page ends the session as logging out does: no token, profile or role is
  -- stored, requests go out as they are, and every other key is as it was. The login page is
  -- loaded, and the address is kept until then.
  pub intercept_failure-unauthorized :
      (err : Failure) (b : Browser) (config : RequestConfig) (key : String)
      → get_api_error_status err ≡ some 401
      → is_admin_route b ≡ true
      → let next = intercept_failure json err b in
        (is_authenticated next.storage ≡ false)
        × (get_stored_profile json next.storage ≡ none)
        × (read_stored_role json next.storage ≡ none)
        × (intercept_request next.storage config ≡ config)
        × (get_item key next.storage
            ≡ (if includes key session_keys then none else get_item key b.storage))
        × (next.loading ≡ some "/admin/login")
        × (next.pathname ≡ b.pathname)
  unfolding intercept_failure clear_auth_session handle_logout
  intercept_failure-unauthorized err b config key e admin =
      let ends = handle_logout-ends json (answered tt) b.storage config key in
      rw (e, admin) (ends.0, ends.1, ends.2, ends.3, ends.4, refl, refl)
