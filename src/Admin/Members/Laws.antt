-- ===== src/Admin/Members/Laws.antt =====
-- Lemmas on apps/web/src/pages/admin/AdminMembers.tsx: the activation link of an invitation.
use Prim.Native.Nat.{◌+◌}
use Prim.Native.String.{String}
use mathlib.Core.Path.{◌≡◌, refl, ap}
use mathlib.Core.Logic.{inl, inr}
use mathlib.Core.Bool.{false, not, ◌||◌}
use mathlib.Core.Option.{Option, none, some}
use native.Mathlib.Omega.{arith}
use statora.Prelude.Tests.{is_some, or_else, Option-cases}
use statora.Prelude.Text.{is_truthy}
use statora.Auth.{truthy_text}
use statora.Api.{answered, first_truthy}
use statora.Admin.Members.{InviteResponse, MembersPage, link_of, begin_invite, finish_invite}

first_truthy-none : (o : Option String) → is_some (first_truthy o none) ≡ truthy_text o
first_truthy-none none = refl
first_truthy-none (some s) = ground arith

is_some-first_truthy :
    (o p : Option String) → is_some (first_truthy o p) ≡ (truthy_text o || is_some p)
is_some-first_truthy none p = refl
is_some-first_truthy (some s) p = ground arith

module _ (origin : String) (encode : String → String) where
  -- A link comes out of an answer exactly if one of its four fields is there and not empty.
  pub is_some-link_of :
      (res : InviteResponse)
      → is_some (link_of origin encode res) ≡ (
          truthy_text res.activation_link
          || truthy_text res.activation_url
          || truthy_text res.invite_link
          || truthy_text res.token)
  unfolding link_of
  is_some-link_of res =
      let c = first_truthy res.invite_link none in
      let b = first_truthy res.activation_url c in
      let on_a = is_some-first_truthy res.activation_link b in
      let on_b = is_some-first_truthy res.activation_url c in
      let on_c = is_some-first_truthy res.invite_link none in
      let on_token = is_some-first_truthy res.token none in
      elim (Option-cases (first_truthy res.activation_link b)) [
        | inl e ↦
            let off = ap is_some e in
            rw (link_of, e)
              (elim (Option-cases (first_truthy res.token none)) [
                | inl f ↦ let off_token = ap is_some f in rw f (ground arith)
                | inr (l, f) ↦ let on = ap is_some f in rw f (ground arith)
              ])
        | inr (l, e) ↦ let on = ap is_some e in rw (link_of, e) (ground arith)
      ]

  -- An accepted invitation is settled: the page keeps the link of the answer, or the one it had if
  -- the answer has none, and shows an error exactly in this case.
  pub finish_invite-tells :
      (res : InviteResponse) (page : MembersPage)
      → let next = finish_invite origin encode (answered res) (begin_invite page) in
        let link = link_of origin encode res in
        (next.inviting ≡ false)
        × (next.activation_link ≡ or_else link page.activation_link)
        × (is_truthy next.invite_error ≡ not (is_some link))
        × (next.refetches ≡ page.refetches + 1)
  unfolding finish_invite begin_invite
  finish_invite-tells res page = elim (Option-cases (link_of origin encode res)) [
    | inl e ↦ rw (finish_invite, e) (refl, refl, refl, refl)
    | inr (link, e) ↦ rw (finish_invite, e) (refl, refl, refl, refl)
  ]
