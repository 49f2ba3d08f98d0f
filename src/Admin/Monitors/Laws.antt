-- ===== src/Admin/Monitors/Laws.antt =====
-- Lemmas on apps/web/src/pages/admin/AdminMonitors.tsx.
use Prim.Native.Nat.{ℕ}
use Prim.Native.String.{String, [], ◌∷◌, ◌++◌}
use mathlib.Core.Path.{◌≡◌, refl, ◌∙◌}
use mathlib.Core.Bool.{Bool, true, false, ◌||◌}
use mathlib.Core.Option
use mathlib.Core.Option.{Option, none, some}
use mathlib.Core.List.{List, map}
use statora.Prelude.Tests.{ltb, if◌then◌else◌, or_else}
use statora.Prelude.Lists.{All}
use statora.Prelude.Reading.{plus, read_numbers, keep_positive, read_numbers-join}
use statora.Prelude.Text.{is_truthy, or_text}
use statora.Types.Json.{Json}
use statora.Types.Status.{MonitorType, http, tcp, dns, ping, ssl}
use statora.Types.Monitor.{Monitor, Advanced}
use statora.Api.{Reply, answered, failed, get_api_error_message}
use statora.Admin.Requests.{put, send}
use statora.Admin.Dialog.{open_with}
use statora.Admin.Monitors.Form.{is_ssl, needs_thresholds}
use statora.Admin.Monitors.{
  MonitorsPage, Payload, thresholds_text, payload, submission, open_edit, begin_test, finish_test,
}

-- the thresholds of a monitor, or those that the form offers in place of none
abbrev pub thresholds_or_default : Option (List ℕ) → List ℕ
thresholds_or_default none = List.◌∷◌ 30 (List.◌∷◌ 14 (List.◌∷◌ 7 List.[]))
thresholds_or_default (some List.[]) = List.◌∷◌ 30 (List.◌∷◌ 14 (List.◌∷◌ 7 List.[]))
thresholds_or_default (some (List.◌∷◌ n ns)) = List.◌∷◌ n ns

abbrev pub ArePositive : List ℕ → Type 0
ArePositive ns = All (λ n. ltb 0 n ≡ true) ns

keep_positive-plus : (ns : List ℕ) → ArePositive ns → keep_positive (map plus ns) ≡ ns
unfolding keep_positive
keep_positive-plus List.[] h = refl
keep_positive-plus (List.◌∷◌ n ns) h = rw (h.0, keep_positive-plus ns h.1)

read_numbers-thresholds_text :
    (ts : Option (List ℕ))
    → ArePositive (or_else ts List.[])
    → read_numbers (thresholds_text ts) ≡ thresholds_or_default ts
read_numbers-thresholds_text none h = unfold read_numbers in refl
read_numbers-thresholds_text (some List.[]) h = unfold read_numbers in refl
read_numbers-thresholds_text (some (List.◌∷◌ n ns)) h =
    read_numbers-join (List.◌∷◌ n ns) ∙ keep_positive-plus (List.◌∷◌ n ns) h

-- whether a flag of `monitoring.advanced` is there and set
abbrev pub is_on : Option Bool → Bool
is_on none = false
is_on (some b) = b

-- the flags, where `advanced` is there
abbrev pub flags : Option Advanced → Bool × Bool × Bool
flags none = (false, false, false)
flags (some a) = (is_on a.domain_expiry, is_on a.cert_expiry, is_on a.ignore_tls_error)

abbrev pub is_ssl_type : MonitorType → Bool
is_ssl_type ssl = true
is_ssl_type _ = false

-- the body that stands for a monitor: its own fields, the flags twice, and the thresholds where the
-- type or a flag for expiry asks for them
abbrev pub body_of_monitor : Monitor → Payload
body_of_monitor m =
    let domain = (flags m.advanced).0 in
    let cert = (flags m.advanced).1 in
    let ignore = (flags m.advanced).2 in
    record {
      name = m.name;
      type = m.type;
      target = m.target;
      ssl_thresholds =
          if is_ssl_type m.type || domain || cert
          then some (thresholds_or_default m.ssl_thresholds)
          else none;
      domain_expiry = domain;
      cert_expiry = cert;
      ignore_tls_error = ignore;
      interval_seconds = m.interval_seconds;
      timeout_seconds = m.timeout_seconds;
      component_id = m.component_id;
      sub_component_id = or_else m.sub_component_id "";
      advanced = record {
        domain_expiry = some domain;
        cert_expiry = some cert;
        ignore_tls_error = some ignore;
      };
    }

is_on-or_else : (o : Option Bool) → or_else o false ≡ is_on o
is_on-or_else none = refl
is_on-or_else (some b) = refl

flags-form_of :
    (a : Option Advanced)
    → (or_else (Option.bind a (λ x. x.domain_expiry)) false ≡ (flags a).0)
      × (or_else (Option.bind a (λ x. x.cert_expiry)) false ≡ (flags a).1)
      × (or_else (Option.bind a (λ x. x.ignore_tls_error)) false ≡ (flags a).2)
unfolding Option.bind
flags-form_of none = (refl, refl, refl)
flags-form_of (some a) =
    (is_on-or_else a.domain_expiry, is_on-or_else a.cert_expiry, is_on-or_else a.ignore_tls_error)

or_text_empty : (s : String) → or_text s "" ≡ s
or_text_empty [] = refl
or_text_empty (c ∷ s) = refl

is_ssl-type : (t : MonitorType) → is_ssl t ≡ is_ssl_type t
is_ssl-type http = refl
is_ssl-type tcp = refl
is_ssl-type dns = refl
is_ssl-type ping = refl
is_ssl-type ssl = refl

-- A monitor that is opened and saved as it is, whose id is not empty and whose thresholds are
-- positive, is put under its id with its own name, type, target, flags, times, component and part. A
-- flag that is missing is sent as unset, and a missing part as an empty text; the flags stand in
-- the form and in `monitoring.advanced`. The thresholds are sent exactly if the type is SSL or an
-- expiry is watched: those it had, or 30, 14 and 7 days if it had none.
pub submission-open_edit :
    (m : Monitor) (page : MonitorsPage)
    → is_truthy m.id ≡ true
    → ArePositive (or_else m.ssl_thresholds List.[])
    → let dialog = (open_edit m page).dialog in
      submission dialog.editing dialog.form ≡ send (put ("/monitors/" ++ m.id) (body_of_monitor m))
unfolding submission payload open_edit open_with needs_thresholds
submission-open_edit m page stored positive =
    let flag = flags-form_of m.advanced in
    rw stored (
      rw (
        stored,
        flag.0,
        flag.1,
        flag.2,
        or_text_empty m.component_id,
        is_ssl-type m.type,
        read_numbers-thresholds_text m.ssl_thresholds positive,
      ))

-- what a test shows, its result and its error
abbrev pub shown : Reply Json → Option Json × String
shown (answered result) = (some result, "")
shown (failed err) = (none, get_api_error_message err "Failed to test monitor")

-- A test ends on every answer. It shows the result, or the reason of the failure, in place of those
-- of an earlier test, and leaves the form as it was.
pub finish_test-settles :
    (reply : Reply Json) (page : MonitorsPage)
    → let next = finish_test reply (begin_test page) in
      (next.testing ≡ false)
      × (next.dialog.form ≡ page.dialog.form)
      × ((next.test_result, next.dialog.error) ≡ shown reply)
unfolding finish_test begin_test
finish_test-settles (answered result) page = (refl, refl, refl)
finish_test-settles (failed err) page = (refl, refl, refl)
