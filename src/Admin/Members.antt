-- ===== src/Admin/Members.antt =====
-- apps/web/src/pages/admin/AdminMembers.tsx: the members, their invitations and the activation link.
pub mod Laws
use Prim.Native.Nat.{ℕ, ◌+◌}
use Prim.Native.String.{String, ◌++◌}
use mathlib.Core.Path.{◌≡◌}
use mathlib.Core.Bool.{Bool, true, false}
use mathlib.Core.Option
use mathlib.Core.Option.{Option, none, some}
use mathlib.Core.List.{List, []}
use statora.Prelude.Tests.{if◌then◌else◌, or_else}
use statora.Prelude.Text.{is_truthy, or_text}
use statora.Types.Status.{UserRole, operator, UserStatus}
use statora.Types.User.{StoredUserProfile}
use statora.Types.People.{UserMember, UserInvitation}
use statora.Auth.Storage.{LocalStorage, Codec, get_item}
use statora.Api.{Reply, answered, failed, get_api_error_message, first_truthy}
use statora.Admin.Requests.{Request, post, post_empty, patch, delete, confirmed}

-- `T[] | { items?: T[] }`, where `none` is data that is missing
pub data Listing {ℓ} (A : Type ℓ) : Type ℓ where
  listed : List A → Listing A
  enveloped : Option (List A) → Listing A

unfoldable pub items_of {ℓ} : {A : Type ℓ} → Option (Listing A) → List A
items_of none = []
items_of (some (listed items)) = items
items_of (some (enveloped items)) = or_else items []

pub record InviteResponse : Type 0 where
  pub activation_link : Option String
  pub activation_url : Option String
  pub invite_link : Option String
  pub token : Option String

pub data Tab : Type 0 where
  members invitations : Tab

-- the state hooks of the page, and how often each of the two lists was fetched anew
pub record MembersPage : Type 0 where
  pub saving_id : Option String
  pub deleting_id : Option String
  pub action_error : String
  pub show_invite_modal : Bool
  pub invite_email : String
  pub invite_role : UserRole
  pub inviting : Bool
  pub invite_error : String
  pub activation_link : String
  pub copy_success : String
  pub invite_action_id : Option String
  pub invite_action_error : String
  pub active_tab : Tab
  pub refetches : ℕ
  pub invitation_refetches : ℕ

module _ (json : Codec StoredUserProfile) where
  -- `JSON.parse` throws, which is caught, where it answers `none`
  unfoldable pub read_stored_admin_profile : LocalStorage → Option StoredUserProfile
  read_stored_admin_profile store =
      Option.bind (first_truthy (get_item "user_profile" store) (get_item "admin_profile" store))
        (λ raw. if is_truthy raw then json.parse raw else none)

  -- `me` is the `userId` of the answer, if there is one; an empty id counts as none
  unfoldable pub current_user_id : Option String → LocalStorage → Option String
  unfolding read_stored_admin_profile
  current_user_id me store =
      let stored = Option.map (λ p. p.id) (read_stored_admin_profile store) in
      first_truthy me (first_truthy stored none)

-- the fields of a member that the page changes, those that are given
pub record MemberChange : Type 0 where
  pub role : Option UserRole
  pub status : Option UserStatus
  pub sso_enabled : Option Bool

unfoldable pub update_request : String → MemberChange → Request MemberChange
update_request id change = patch ("/users/" ++ id) change

unfoldable pub begin_update : String → MembersPage → MembersPage
begin_update id page = record page { saving_id = some id; action_error = "" }

-- the list after an accepted request, or the error of a failed one
abbrev acted : String → Reply {0} Unit → MembersPage → MembersPage
acted fallback (answered _) page = record page { refetches = page.refetches + 1 }
acted fallback (failed err) page = record page { action_error = get_api_error_message err fallback }

unfoldable pub finish_update : Reply {0} Unit → MembersPage → MembersPage
finish_update reply page = record (acted "Failed to update user. Please try again." reply page) {
  saving_id = none;
}

unfoldable pub delete_request : Bool → UserMember → Option (Request MemberChange)
delete_request answer member = confirmed answer (delete ("/users/" ++ member.id))

unfoldable pub begin_delete : UserMember → MembersPage → MembersPage
begin_delete member page = record page { deleting_id = some member.id; action_error = "" }

unfoldable pub finish_delete : Reply {0} Unit → MembersPage → MembersPage
finish_delete reply page = record (acted "Failed to delete user. Please try again." reply page) {
  deleting_id = none;
}

unfoldable pub open_invite_modal : MembersPage → MembersPage
open_invite_modal page = record page {
  invite_email = "";
  invite_role = operator;
  invite_error = "";
  activation_link = "";
  copy_success = "";
  show_invite_modal = true;
}

pub record InviteBody : Type 0 where
  pub email : String
  pub role : UserRole

unfoldable pub invite_request : MembersPage → Request InviteBody
invite_request page =
    post "/users/invitations" (record { email = page.invite_email; role = page.invite_role })

unfoldable pub begin_invite : MembersPage → MembersPage
begin_invite page = record page { inviting = true; invite_error = ""; copy_success = "" }

-- `location.origin` and `encodeURIComponent`
module _ (origin : String) (encode : String → String) where
  -- the link that an answer gives, or that is made from its token
  unfoldable pub link_of : InviteResponse → Option String
  link_of data_shown =
      let given =
        first_truthy data_shown.activation_link
          (first_truthy data_shown.activation_url (first_truthy data_shown.invite_link none)) in
      elim given [
        | some link ↦ some link
        | none ↦
            Option.map (λ token. origin ++ "/admin/activate?token=" ++ encode token)
              (first_truthy data_shown.token none)
      ]

  unfoldable pub finish_invite : Reply InviteResponse → MembersPage → MembersPage
  unfolding link_of
  finish_invite (answered res) page = elim (link_of res) [
    | some link ↦ record page {
      activation_link = link;
      refetches = page.refetches + 1;
      inviting = false;
    }
    | none ↦ record page {
      invite_error = "Invitation sent, but activation link was not returned by API.";
      refetches = page.refetches + 1;
      inviting = false;
    }
  ]
  finish_invite (failed err) page = record page {
    invite_error = get_api_error_message err "Failed to invite user. Please try again.";
    inviting = false;
  }

  unfoldable pub refresh_request : UserInvitation → Request InviteBody
  refresh_request i = post_empty ("/users/invitations/" ++ i.id ++ "/refresh")

  unfoldable pub begin_refresh : UserInvitation → MembersPage → MembersPage
  begin_refresh i page = record page {
    invite_action_id = some i.id;
    invite_action_error = "";
    copy_success = "";
  }

  unfoldable pub finish_refresh : Reply InviteResponse → MembersPage → MembersPage
  unfolding link_of
  finish_refresh (answered res) page = elim (link_of res) [
    | some link ↦ record page {
      activation_link = link;
      invitation_refetches = page.invitation_refetches + 1;
      invite_action_id = none;
    }
    | none ↦ record page {
      invite_action_error = "Token refreshed, but activation link was not returned.";
      invitation_refetches = page.invitation_refetches + 1;
      invite_action_id = none;
    }
  ]
  finish_refresh (failed err) page = record page {
    invite_action_error = get_api_error_message err "Failed to refresh token.";
    invite_action_id = none;
  }

-- the link that the page shows, which stands in the modal
unfoldable pub visible_link : MembersPage → String
visible_link page = if page.show_invite_modal then page.activation_link else ""

-- with the outcome of writing to the clipboard
unfoldable pub handle_copy_activation_link : Bool → MembersPage → MembersPage
handle_copy_activation_link written page =
    if is_truthy page.activation_link
    then record page {
      copy_success =
          if written then "Activation link copied" else "Copy failed. Please copy manually.";
    }
    else page

unfoldable pub remove_request : String → Request InviteBody
remove_request id = delete ("/users/invitations/" ++ id)

unfoldable pub begin_remove : String → MembersPage → MembersPage
begin_remove id page = record page { invite_action_id = some id; invite_action_error = "" }

unfoldable pub finish_remove : Reply {0} Unit → MembersPage → MembersPage
finish_remove (answered _) page = record page {
  invitation_refetches = page.invitation_refetches + 1;
  invite_action_id = none;
}
finish_remove (failed err) page = record page {
  invite_action_error = get_api_error_message err "Failed to remove invitation.";
  invite_action_id = none;
}
