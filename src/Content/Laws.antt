-- ===== src/Content/Laws.antt =====
-- Lemmas on the reading of rich text in apps/web/src/lib/contentModel.ts.
use Prim.Native.String.{String}
use mathlib.Core.Path.{◌≡◌, refl, ◌∙◌}
use mathlib.Core.Logic.{◌≢◌}
use mathlib.Core.Bool.{Bool, true, false, not, ◌&&◌, ◌||◌}
use mathlib.Core.Option.{Option, none, some}
use mathlib.Core.List.{List}
use native.Mathlib.Omega.{arith}
use statora.Prelude.Tests.{if◌then◌else◌, is_some}
use statora.Prelude.Equality.{◌==◌, String_eq}
use statora.Types.Status.{MaintenanceStatus, in_progress}
use statora.Types.Json.{Json, null, arr, obj, Items, nil, cons, Fields, end, field}
use statora.Content.{
  normalize_maintenance_status, both, direct_text, extract_text, extract_node, nested_content,
  array_content,
}

-- a node of the tree, at any depth of `content` arrays, is `null`
mutual
  pub null_among : Items → Bool
  null_among nil = false
  null_among (cons node nodes) = null_at node || null_among nodes

  pub null_at : Json → Bool
  null_at null = true
  null_at (obj fs) = null_below fs
  null_at _ = false

  pub null_below : Fields → Bool
  null_below end = false
  null_below (field key v fs) =
      let rest = null_below fs in if key == "content" then null_in_array v else rest

  pub null_in_array : Json → Bool
  null_in_array (arr nodes) = null_among nodes
  null_in_array _ = false

both-is_some : (a b : Option (List String)) → is_some (both a b) ≡ (is_some a && is_some b)
both-is_some none b = refl
both-is_some (some xs) none = refl
both-is_some (some xs) (some ys) = refl

both-not :
    (a b : Option (List String)) (p q : Bool)
    → is_some a ≡ not p
    → is_some b ≡ not q
    → is_some (both a b) ≡ not (p || q)
both-not a b p q ha hb = ground (arith, both-is_some a b, ha, hb)

mutual
  unfolding extract_text null_among

  among : (nodes : Items) → is_some (extract_text nodes) ≡ not (null_among nodes)
  among nil = refl
  among (cons node nodes) =
      both-not (extract_node node) (extract_text nodes) (null_at node) (null_among nodes) (at node)
        (among nodes)

  at : (node : Json) → is_some (extract_node node) ≡ not (null_at node)
  at null = refl
  at (obj fs) = both-is_some (some (direct_text fs)) (nested_content fs) ∙ below fs
  at _ = refl

  below : (fs : Fields) → is_some (nested_content fs) ≡ not (null_below fs)
  below end = refl
  below (field key v fs) = ground (arith, below fs, in_array v)

  in_array : (v : Json) → is_some (array_content v) ≡ not (null_in_array v)
  in_array (arr nodes) = among nodes
  in_array _ = refl

-- The text of a rich-text tree can be read unless a node at some depth is `null`.
pub extract_text-null_among :
    (nodes : Items) → is_some (extract_text nodes) ≡ not (null_among nodes)
extract_text-null_among nodes = among nodes

-- A status that was normalised is one of the four current ones, and stays as it is.
pub normalize_maintenance_status_current :
    (status : MaintenanceStatus)
    → (normalize_maintenance_status status ≢ in_progress)
      × (normalize_maintenance_status (normalize_maintenance_status status)
          ≡ normalize_maintenance_status status)
unfolding normalize_maintenance_status
normalize_maintenance_status_current status = ground arith
