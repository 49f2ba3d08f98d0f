-- ===== src/Admin/Monitors/Form.antt =====
-- apps/web/src/pages/admin/AdminMonitors.tsx: the fields of the form and their events.
use Prim.Native.String.{String}
use mathlib.Core.Path.{◌≡◌}
use mathlib.Core.Bool.{Bool, true, false, not, ◌&&◌, ◌||◌}
use native.Mathlib.Omega.{arith}
use statora.Prelude.Tests.{if◌then◌else◌}
use statora.Prelude.Reading.{Reading, plus, parse_int}
use statora.Types.Status.{MonitorType, http, tcp, dns, ping, ssl}

pub record FormState : Type 0 where
  pub name : String
  pub type : MonitorType
  pub target : String
  pub ssl_thresholds : String
  pub domain_expiry : Bool
  pub cert_expiry : Bool
  pub ignore_tls_error : Bool
  pub interval_seconds : Reading
  pub timeout_seconds : Reading
  pub component_id : String
  pub sub_component_id : String

abbrev pub default_form : FormState
default_form = record {
  name = "";
  type = http;
  target = "";
  ssl_thresholds = "30,14,7";
  domain_expiry = false;
  cert_expiry = false;
  ignore_tls_error = false;
  interval_seconds = plus 60;
  timeout_seconds = plus 10;
  component_id = "";
  sub_component_id = "";
}

unfoldable pub type_placeholders : MonitorType → String
type_placeholders http = "https://example.com/health"
type_placeholders tcp = "example.com:443"
type_placeholders dns = "example.com"
type_placeholders ping = "example.com"
type_placeholders ssl = "example.com:443"

-- `type === 'http'` and `type === 'ssl'`
abbrev pub is_http : MonitorType → Bool
is_http http = true
is_http _ = false

abbrev pub is_ssl : MonitorType → Bool
is_ssl ssl = true
is_ssl _ = false

-- `supportsDomainExpiry` and `supportsCertExpiry`
abbrev pub supports_expiry : MonitorType → Bool
supports_expiry type = is_http type || is_ssl type

unfoldable pub needs_thresholds : FormState → Bool
needs_thresholds form = is_ssl form.type || form.domain_expiry || form.cert_expiry

unfoldable pub change_type : MonitorType → FormState → FormState
change_type next_type f =
    let next_domain_expiry = if supports_expiry next_type then f.domain_expiry else false in
    let next_cert_expiry = if supports_expiry next_type then f.cert_expiry else false in
    let next_ignore = if is_http next_type then f.ignore_tls_error else false in
    record f {
      type = next_type;
      target = "";
      domain_expiry = next_domain_expiry;
      cert_expiry = next_cert_expiry;
      ignore_tls_error = if next_cert_expiry && next_ignore then false else next_ignore;
    }

unfoldable pub check_cert_expiry : Bool → FormState → FormState
check_cert_expiry checked f = record f {
  cert_expiry = checked;
  ignore_tls_error = if checked then false else f.ignore_tls_error;
}

unfoldable pub check_ignore_tls_error : Bool → FormState → FormState
check_ignore_tls_error checked f = record f {
  ignore_tls_error = checked;
  cert_expiry = if checked then false else f.cert_expiry;
}

-- An event of the form. A box is there only for the types that support it.
pub data Edit : FormState → FormState → Type 0 where
  type_text :
      (f : FormState) (name target thresholds : String)
      → Edit f (record f { name = name; target = target; ssl_thresholds = thresholds })
  choose_type : (f : FormState) (next : MonitorType) → Edit f (change_type next f)
  tick_domain :
      (f : FormState) (checked : Bool)
      → supports_expiry f.type ≡ true
      → Edit f (record f { domain_expiry = checked })
  tick_cert :
      (f : FormState) (checked : Bool)
      → supports_expiry f.type ≡ true
      → Edit f (check_cert_expiry checked f)
  tick_ignore :
      (f : FormState) (checked : Bool)
      → is_http f.type ≡ true
      → Edit f (check_ignore_tls_error checked f)
  choose_component :
      (f : FormState) (id : String) → Edit f (record f { component_id = id; sub_component_id = "" })
  choose_part : (f : FormState) (id : String) → Edit f (record f { sub_component_id = id })
  type_interval :
      (f : FormState) (text : String) → Edit f (record f { interval_seconds = parse_int text })
  type_timeout :
      (f : FormState) (text : String) → Edit f (record f { timeout_seconds = parse_int text })

-- one event after the other
pub data Edits : FormState → FormState → Type 0 where
  unedited : (f : FormState) → Edits f f
  then_edit : {f g h : FormState} → Edits f g → Edit g h → Edits f h

-- The flags fit the type: expiry only where it is supported, TLS errors ignored only for HTTP, and
-- not while the certificate is watched.
unfoldable pub fits : FormState → Bool
fits f =
    (not f.domain_expiry || supports_expiry f.type)
    && (not f.cert_expiry || supports_expiry f.type)
    && (not f.ignore_tls_error || (is_http f.type && not f.cert_expiry))

Edit-fits : {f g : FormState} → Edit f g → fits f ≡ true → fits g ≡ true
unfolding fits change_type check_cert_expiry check_ignore_tls_error
Edit-fits (type_text f name target thresholds) h = h
Edit-fits (choose_type f next) h = ground arith
Edit-fits (tick_domain f checked s) h = ground arith
Edit-fits (tick_cert f checked s) h = ground arith
Edit-fits (tick_ignore f checked s) h = ground arith
Edit-fits (choose_component f id) h = h
Edit-fits (choose_part f id) h = h
Edit-fits (type_interval f text) h = h
Edit-fits (type_timeout f text) h = h

-- Whatever is done to the form, its flags fit its type if they did so before: expiry is watched only
-- where the type supports it, and TLS errors are ignored only for HTTP and never while the
-- certificate is watched.
pub Edits-fits : {f g : FormState} → Edits f g → fits f ≡ true → fits g ≡ true
Edits-fits (unedited f) h = h
Edits-fits (then_edit r e) h = Edit-fits e (Edits-fits r h)
