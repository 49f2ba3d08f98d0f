-- ===== src/Admin/Incidents/Targets.antt =====
-- Lemmas on the affected components in the form of apps/web/src/pages/admin/AdminIncidents.tsx.
use Prim.Native.Nat.{ℕ, zero, suc}
use Prim.Native.String.{String}
use mathlib.Core.Path.{◌≡◌, refl, sym, ap, ◌∙◌}
use mathlib.Core.Logic.{inl, inr, ◌⊎◌}
use mathlib.Core.Bool.{true, false, not}
use mathlib.Core.Option
use mathlib.Core.Option.{Option, none, some}
use mathlib.Core.List
use mathlib.Core.List.{List, [], ◌∷◌, map}
use native.Mathlib.Omega.{arith}
use statora.Prelude.Tests.{if◌then◌else◌, is_some, or_else, Bool-cases, Option-cases}
use statora.Prelude.Equality.{◌==◌, ==-comm, String_eq}
use statora.Prelude.Lists.{filter, any, find}
use statora.Admin.Selection.{toggled, includes, is_distinct, append-is_distinct}
use statora.Admin.Incidents.{
  Target, is_for, toggle_target, find_index, change_at, toggle_sub_target,
}

abbrev pub get : String → List Target → Option Target
get component_id targets = find (is_for component_id) targets

abbrev pub empty_target : String → Target
empty_target component_id = record { component_id = component_id; sub_component_ids = [] }

any-get : (id : String) (ts : List Target) → any (is_for id) ts ≡ is_some (get id ts)
any-get id [] = refl
any-get id (t ∷ ts) = elim (Bool-cases (is_for id t)) [
  | inl h ↦ rw h
  | inr h ↦ rw h (any-get id ts)
]

get-append :
    (id : String) (ts : List Target) (t : Target)
    → get id (List.◌++◌ ts (t ∷ []))
      ≡ (if is_some (get id ts) then get id ts else if is_for id t then some t else none)
get-append id [] t = refl
get-append id (u ∷ ts) t = elim (Bool-cases (is_for id u)) [
  | inl h ↦ rw h
  | inr h ↦ rw h (get-append id ts t)
]

get-remove :
    (id other : String) (ts : List Target)
    → get other (filter (λ t. not (is_for id t)) ts) ≡ (if id == other then none else get other ts)
get-remove id other [] = ground arith
get-remove id other (u ∷ ts) = elim (Bool-cases (is_for id u)) [
  | inl h ↦
      let p = (String_eq.same_iff u.component_id id).0 h in
      rw h (rw (p, get-remove id other ts) (ground arith))
  | inr h ↦ elim (Bool-cases (is_for other u)) [
    | inl k ↦
        let p = (String_eq.same_iff u.component_id other).0 k in
        let q = ==-comm id other in let ne : (id == other) ≡ false = cc in rw h (rw (k, ne))
    | inr k ↦ rw h (rw k (get-remove id other ts))
  ]
]

-- `{ ...target, subComponentIds: g(target.subComponentIds) }`
abbrev pub with_subs : (List String → List String) → Target → Target
with_subs g t = record t { sub_component_ids = g t.sub_component_ids }

module _ (id : String) (g : List String → List String) where
  -- with the first target of the component replaced
  update : List Target → List Target
  update [] = []
  update (t ∷ ts) = let rest = update ts in if is_for id t then with_subs g t ∷ ts else t ∷ rest

  change_at-find_index :
      (ts : List Target)
      → ((find_index (is_for id) ts ≡ none) × (get id ts ≡ none))
        ⊎ ((i : ℕ) × (find_index (is_for id) ts ≡ some i)
            × (change_at i (with_subs g) ts ≡ update ts)
            × ((t : Target) × (get id ts ≡ some t)))
  unfolding update
  change_at-find_index [] = inl (refl, refl)
  change_at-find_index (t ∷ ts) = elim (Bool-cases (is_for id t)) [
    | inl h ↦ inr (zero, rw h, rw h, (t, rw h))
    | inr h ↦ elim (change_at-find_index ts) [
      | inl (missing, none_there) ↦ inl (rw (h, missing), rw h none_there)
      | inr (i, at, same, (u, there)) ↦ inr (suc i, rw (h, at), rw (h, same), (u, rw h there))
    ]
  ]

  get-update :
      (other : String) (ts : List Target)
      → get other (update ts)
        ≡ (if id == other then Option.map (with_subs g) (get other ts) else get other ts)
  unfolding update
  get-update other [] = ground arith
  get-update other (t ∷ ts) = elim (Bool-cases (is_for id t)) [
    | inl h ↦
        let p = (String_eq.same_iff t.component_id id).0 h in
        rw h (rw p (elim (Bool-cases (id == other)) [ inl k ↦ rw k | inr k ↦ rw k ]))
    | inr h ↦ elim (Bool-cases (is_for other t)) [
      | inl k ↦
          let p = (String_eq.same_iff t.component_id other).0 k in
          let q = ==-comm id other in let ne : (id == other) ≡ false = cc in rw h (rw (k, ne))
      | inr k ↦ rw h (rw k (get-update other ts))
    ]
  ]

get_cong : (id other : String) (ts : List Target) → (id == other) ≡ true → get id ts ≡ get other ts
get_cong id other ts h = ap (λ i. get i ts) ((String_eq.same_iff id other).0 h)

-- Ticking a component gives it an empty target if it had none and takes its target away if it had
-- one; the targets of the others stay as they were.
pub get-toggle_target :
    (id other : String) (ts : List Target)
    → get other (toggle_target id ts) ≡ (
        if id == other
        then if is_some (get other ts) then none else some (empty_target id)
        else get other ts)
unfolding toggle_target
get-toggle_target id other ts =
    let present = any-get id ts in
    let same = get_cong id other ts in
    elim (Bool-cases (any (is_for id) ts)) [
      | inl h ↦ rw h (rw (get-remove id other ts) (ground arith))
      | inr h ↦ rw h (rw (get-append other ts (empty_target id)) (ground arith))
    ]

-- Ticking a part changes the parts of its component's target, which is made if it is missing, and
-- no other target.
pub get-toggle_sub_target :
    (id sub other : String) (ts : List Target)
    → get other (toggle_sub_target id sub ts) ≡ (
        if id == other
        then some (with_subs (toggled sub) (or_else (get other ts) (empty_target other)))
        else get other ts)
unfolding toggle_sub_target toggled
get-toggle_sub_target id sub other ts =
    let same = get_cong id other ts in
    elim (change_at-find_index id (toggled sub) ts) [
      | inl (missing, none_there) ↦
          rw (toggle_sub_target, missing)
            (rw (get-append other ts (with_subs (λ ids. toggled sub []) (empty_target id)))
              (elim (Bool-cases (id == other)) [
                | inl k ↦
                    let p = (String_eq.same_iff id other).0 k in
                    let here = sym (same k) ∙ none_there in rw (k, here, p)
                | inr k ↦
                    rw k (elim (Option-cases (get other ts)) [ inl e ↦ rw e | inr (t, e) ↦ rw e ])
              ]))
      | inr (i, at, changed, (t, there)) ↦
          rw (toggle_sub_target, at)
            (rw changed (
              rw (get-update id (toggled sub) other ts) (elim (Bool-cases (id == other)) [
                | inl k ↦ let here = sym (same k) ∙ there in rw (k, here)
                | inr k ↦ rw k
              ])))
    ]

-- the components of the targets
abbrev pub ids : List Target → List String
ids ts = map (λ t. t.component_id) ts

any-ids : (id : String) (ts : List Target) → any (is_for id) ts ≡ includes id (ids ts)
any-ids id [] = refl
any-ids id (t ∷ ts) = rw (any-ids id ts)

ids-append : (ts us : List Target) → ids (List.◌++◌ ts us) ≡ List.◌++◌ (ids ts) (ids us)
ids-append [] us = refl
ids-append (t ∷ ts) us = rw (ids-append ts us)

ids-filter :
    (id : String) (ts : List Target)
    → ids (filter (λ t. not (is_for id t)) ts) ≡ filter (λ i. not (i == id)) (ids ts)
ids-filter id [] = refl
ids-filter id (t ∷ ts) = elim (Bool-cases (is_for id t)) [
  | inl h ↦ rw h (ids-filter id ts)
  | inr h ↦ rw h (ap (λ is. t.component_id ∷ is) (ids-filter id ts))
]

pub ids-toggle_target :
    (id : String) (ts : List Target) → ids (toggle_target id ts) ≡ toggled id (ids ts)
unfolding toggle_target toggled
ids-toggle_target id ts = elim (Bool-cases (includes id (ids ts))) [
  | inl h ↦ rw (any-ids id ts) (rw h (ids-filter id ts))
  | inr h ↦ rw (any-ids id ts) (rw h (ids-append ts (empty_target id ∷ [])))
]

ids-update :
    (id : String) (g : List String → List String) (ts : List Target) → ids (update id g ts) ≡ ids ts
unfolding update
ids-update id g [] = refl
ids-update id g (t ∷ ts) = elim (Bool-cases (is_for id t)) [
  | inl h ↦ rw h
  | inr h ↦ rw h (rw (ids-update id g ts))
]

pub toggle_sub_target-is_distinct :
    (id sub : String) (ts : List Target)
    → is_distinct (ids ts) ≡ true
    → is_distinct (ids (toggle_sub_target id sub ts)) ≡ true
unfolding toggle_sub_target
toggle_sub_target-is_distinct id sub ts h = elim (change_at-find_index id (toggled sub) ts) [
  | inl (missing, none_there) ↦
      let absent : includes id (ids ts) ≡ false =
        sym (any-ids id ts) ∙ rw (any-get id ts, none_there) in
      rw (toggle_sub_target, missing)
        (rw (ids-append ts _) (append-is_distinct id (ids ts) absent h))
  | inr (i, at, changed, there) ↦
      rw (toggle_sub_target, at) (rw changed (rw (ids-update id (toggled sub) ts) h))
]
