-- ===== src/Admin/Subscribers.antt =====
-- apps/web/src/pages/admin/AdminSubscribers.tsx and AdminWebhookChannels.tsx: lists whose rows are
-- removed, and the form of a channel.
use Prim.Native.Nat.{ℕ, ◌+◌}
use Prim.Native.String.{String, ◌++◌}
use mathlib.Core.Bool.{Bool, true, false, not, ◌&&◌}
use mathlib.Core.Option.{Option, none, some}
use mathlib.Core.List
use mathlib.Core.List.{List, [], ◌∷◌, Perm}
use mathlib.Core.List.Perm
use statora.Prelude.Lists.{filter, filter-and, filter-not-perm}
use statora.Types.People.{Subscriber, WebhookChannel}
use statora.Api.{Reply, answered, failed, get_api_error_message}
use statora.Admin.Requests.{Request, post, post_empty, delete, confirmed}

-- the state hooks of the subscribers, how often the list was fetched anew, and the texts of `alert`
pub record SubscribersPage : Type 0 where
  pub deleting : Option String
  pub resending : Option String
  pub refetches : ℕ
  pub alerts : List String

unfoldable pub delete_request : Bool → Subscriber → Option (Request {0} Unit)
delete_request answer s = confirmed answer (delete ("/subscribers/" ++ s.id))

unfoldable pub begin_delete : Subscriber → SubscribersPage → SubscribersPage
begin_delete s page = record page { deleting = some s.id }

-- the list after an accepted request, or the alert of a failed one
abbrev reported : String → Reply {0} Unit → SubscribersPage → SubscribersPage
reported fallback (answered _) page = record page { refetches = page.refetches + 1 }
reported fallback (failed err) page = record page {
  alerts = get_api_error_message err fallback ∷ page.alerts;
}

unfoldable pub finish_delete : Reply {0} Unit → SubscribersPage → SubscribersPage
finish_delete reply page = record (reported "Failed to delete" reply page) { deleting = none }

unfoldable pub resend_request : Subscriber → Request {0} Unit
resend_request s = post_empty ("/subscribers/" ++ s.id ++ "/resend-verification")

unfoldable pub begin_resend : Subscriber → SubscribersPage → SubscribersPage
begin_resend s page = record page { resending = some s.id }

unfoldable pub finish_resend : Reply {0} Unit → SubscribersPage → SubscribersPage
finish_resend reply page = record (reported "Failed to resend verification email" reply page) {
  resending = none;
}

unfoldable pub verified : List Subscriber → List Subscriber
verified subscribers = filter (λ s. s.verified && not s.unsubscribed) subscribers

unfoldable pub unverified : List Subscriber → List Subscriber
unverified subscribers = filter (λ s. not s.verified && not s.unsubscribed) subscribers

unfoldable pub unsubscribed : List Subscriber → List Subscriber
unsubscribed subscribers = filter (λ s. s.unsubscribed) subscribers

-- The verified, the unverified and the unsubscribed are together all subscribers, each once.
pub subscribers-perm :
    (ss : List Subscriber)
    → Perm (List.◌++◌ (unsubscribed ss) (List.◌++◌ (verified ss) (unverified ss))) ss
unfolding verified unverified unsubscribed
subscribers-perm ss =
    let kept = filter (λ s. not s.unsubscribed) ss in
    Perm.trans
      (rw
        (
          filter-and (λ s. s.verified) (λ s. not s.unsubscribed) ss,
          filter-and (λ s. not s.verified) (λ s. not s.unsubscribed) ss,
        )
        (Perm.append_left (unsubscribed ss) (filter-not-perm (λ s. s.verified) kept)))
      (filter-not-perm (λ s. s.unsubscribed) ss)

-- the state hooks of the channels
pub record ChannelsPage : Type 0 where
  pub deleting : Option String
  pub creating : Bool
  pub name : String
  pub url : String
  pub error : String
  pub refetches : ℕ
  pub alerts : List String

pub record ChannelBody : Type 0 where
  pub name : String
  pub url : String

unfoldable pub create_request : ChannelsPage → Request ChannelBody
create_request page = post "/webhook-channels" (record { name = page.name; url = page.url })

unfoldable pub begin_create : ChannelsPage → ChannelsPage
begin_create page = record page { error = ""; creating = true }

unfoldable pub finish_create : Reply {0} Unit → ChannelsPage → ChannelsPage
finish_create (answered _) page = record page {
  name = "";
  url = "";
  refetches = page.refetches + 1;
  creating = false;
}
finish_create (failed err) page = record page {
  error = get_api_error_message err "Failed to create webhook channel";
  creating = false;
}

unfoldable pub delete_channel_request : Bool → WebhookChannel → Option (Request ChannelBody)
delete_channel_request answer c = confirmed answer (delete ("/webhook-channels/" ++ c.id))

unfoldable pub begin_delete_channel : WebhookChannel → ChannelsPage → ChannelsPage
begin_delete_channel c page = record page { deleting = some c.id }

unfoldable pub finish_delete_channel : Reply {0} Unit → ChannelsPage → ChannelsPage
finish_delete_channel (answered _) page = record page {
  refetches = page.refetches + 1;
  deleting = none;
}
finish_delete_channel (failed err) page = record page {
  alerts = get_api_error_message err "Failed to delete" ∷ page.alerts;
  deleting = none;
}

abbrev pub enabled : List WebhookChannel → List WebhookChannel
enabled channels = filter (λ c. c.enabled) channels

abbrev pub disabled : List WebhookChannel → List WebhookChannel
disabled channels = filter (λ c. not c.enabled) channels

-- The enabled and the disabled channels are together all channels, each once.
pub channels-perm : (cs : List WebhookChannel) → Perm (List.◌++◌ (enabled cs) (disabled cs)) cs
channels-perm cs = filter-not-perm (λ c. c.enabled) cs
