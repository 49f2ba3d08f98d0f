-- ===== src/Admin/SubComponents/Laws.antt =====
-- Lemmas on the form of apps/web/src/pages/admin/AdminSubComponents.tsx.
use Prim.Native.String.{String, [], ◌∷◌}
use mathlib.Core.Path.{◌≡◌, refl, sym, ◌∙◌}
use mathlib.Core.Logic.{◌↔◌}
use mathlib.Core.Bool.{true}
use mathlib.Core.Option.{some}
use statora.Prelude.Text.{or_text}
use statora.Prelude.Equality.{==-refl, String_eq}
use statora.Prelude.Tests.{and-cases}
use statora.Types.Status.{ComponentStatus_eq}
use statora.Types.Service.{SubComponent}
use statora.Admin.SubComponents.{FormState, form_of, is_unchanged}

or_text_empty : (s : String) → or_text s "" ≡ s
or_text_empty [] = refl
or_text_empty (c ∷ s) = refl

-- While a subcomponent is edited, the form counts as unchanged exactly if it is the form that the
-- subcomponent was opened with.
pub is_unchanged_iff :
    (s : SubComponent) (form : FormState) → (is_unchanged (some s) form ≡ true) ↔ (form ≡ form_of s)
unfolding is_unchanged
is_unchanged_iff s form = (
  λ h.
      let all = and-cases _ _ h in
      let shown = and-cases _ _ all.0 in
      let ids = and-cases _ _ shown.0 in
      let id = (String_eq.same_iff s.component_id form.component_id).0 ids.0 in
      let name = (String_eq.same_iff s.name form.name).0 ids.1 in
      let text = (String_eq.same_iff (or_text s.description "") form.description).0 shown.1 in
      let description = sym (or_text_empty s.description) ∙ text in
      let status = (ComponentStatus_eq.same_iff s.status form.status).0 all.1 in
      rw (id, name, description, status),
  λ h. rw (
    h,
    or_text_empty s.description,
    ==-refl s.component_id,
    ==-refl s.name,
    ==-refl s.description,
    ==-refl s.status,
  ),
)
