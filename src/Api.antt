-- ===== src/Api.antt =====
-- apps/web/src/lib/api.ts and lib/apiError.ts: the two interceptors of the client, and what is read
-- from an error.
pub mod Laws
use Prim.Native.Nat.{ℕ}
use Prim.Native.String.{String, ◌++◌}
use mathlib.Core.Bool.{Bool, true, false, ◌&&◌}
use mathlib.Core.Option.{Option, none, some}
use text.Mathlib.Text.{starts_with}
use statora.Prelude.Tests.{nat_eq, if◌then◌else◌}
use statora.Prelude.Text.{is_truthy, or_text}
use statora.Types.User.{StoredUserProfile}
use statora.Auth.Storage.{LocalStorage, get_item, remove_item, Codec}
use statora.Auth.{clear_auth_session, requires_mfa, truthy_text}

-- What a rejected request hands to `catch`: an error of the client, with the response if the server
-- answered (`error` is the field of the response's body), or any other value that was thrown.
pub record ErrorResponse : Type 0 where
  pub status : ℕ
  pub error : Option String

pub data Failure : Type 0 where
  axios_error : Option ErrorResponse → Failure
  other : Option String → Failure

-- what comes back from a request
pub data Reply {ℓ} (A : Type ℓ) : Type ℓ where
  answered : A → Reply A
  failed : Failure → Reply A

-- `a || b` on texts that may be missing
abbrev pub first_truthy : Option String → Option String → Option String
first_truthy none b = b
first_truthy (some s) b = if is_truthy s then some s else b

-- `error.response?.data?.error || fallback`
abbrev pub message_or : Option String → String → String
message_or none fallback = fallback
message_or (some s) fallback = or_text s fallback

unfoldable pub get_api_error_message : Failure → String → String
get_api_error_message (axios_error none) fallback = fallback
get_api_error_message (axios_error (some response)) fallback = message_or response.error fallback
get_api_error_message (other _) fallback = fallback

unfoldable pub get_api_error_status : Failure → Option ℕ
get_api_error_status (axios_error none) = none
get_api_error_status (axios_error (some response)) = some response.status
get_api_error_status (other _) = none

-- the part of a request that the interceptor touches
pub record RequestConfig : Type 0 where
  pub url : String
  pub authorization : Option String

unfoldable pub stored_bearer : LocalStorage → Option String
stored_bearer store = first_truthy (get_item "user_token" store) (get_item "admin_token" store)

-- `if (token) config.headers.Authorization = …`
abbrev authorize : Option String → RequestConfig → RequestConfig
authorize none config = config
authorize (some token) config =
    if is_truthy token then record config { authorization = some ("Bearer " ++ token) } else config

unfoldable pub intercept_request : LocalStorage → RequestConfig → RequestConfig
unfolding stored_bearer
intercept_request store config = authorize (stored_bearer store) config

-- The page: its storage, its path, and the address that was last assigned to `location.href`, which
-- loads that page anew.
pub record Browser : Type 0 where
  pub storage : LocalStorage
  pub pathname : String
  pub loading : Option String

-- `pathname.startsWith('/admin')`
abbrev pub is_admin_route : Browser → Bool
is_admin_route b = starts_with b.pathname "/admin"

-- `status === code`
abbrev pub is_status : ℕ → Option ℕ → Bool
is_status code none = false
is_status code (some s) = nat_eq s code

-- `if (status === 401) { … }`
on_unauthorized : Failure → Browser → Browser
on_unauthorized err b =
    if is_status 401 (get_api_error_status err) && is_admin_route b
    then record b {
      storage =
          remove_item "admin_profile" (remove_item "admin_token" (clear_auth_session b.storage));
      loading = some "/admin/login";
    }
    else b

module _ (json : Codec StoredUserProfile) where
  -- `if (status === 403) { … }`
  on_forbidden : Failure → Browser → Browser
  on_forbidden err b =
      if is_status 403 (get_api_error_status err) && is_admin_route b && requires_mfa json b.storage
      then record b { loading = some "/admin/profile" }
      else b

  -- A successful response is passed on as it is. A failed one is rejected again with the same
  -- error, once the page is brought up to date.
  unfoldable pub intercept_failure : Failure → Browser → Browser
  unfolding on_unauthorized on_forbidden
  intercept_failure err b = on_forbidden err (on_unauthorized err b)
