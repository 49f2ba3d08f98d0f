-- ===== src/Content.antt =====
-- apps/web/src/lib/contentModel.ts: plain text out of rich text.
pub mod Laws
use Prim.Native.String.{String, [], ◌∷◌, ◌++◌}
use mathlib.Core.Bool.{Bool, true, false}
use mathlib.Core.Option
use mathlib.Core.Option.{Option, none, some}
use mathlib.Core.List.{List}
use mathlib.Core.List
use statora.Prelude.Tests.{if◌then◌else◌}
use statora.Prelude.Equality.{◌==◌, String_eq}
use statora.Prelude.Text.{trim, or_text}
use statora.Types.Status.{MaintenanceStatus, in_progress, active}
use statora.Types.Json.{
  Json, null, boolean, number, str, arr, obj, Items, nil, cons, Fields, end, field,
  RichTextDocument,
}
use statora.Types.Incident.{Incident, IncidentUpdate, Maintenance}

unfoldable pub normalize_maintenance_status : MaintenanceStatus → MaintenanceStatus
normalize_maintenance_status in_progress = active
normalize_maintenance_status status = status

-- `typeof v === 'string' ? [v] : []`
abbrev pub text_value : Json → List String
text_value (str s) = List.◌∷◌ s List.[]
text_value _ = List.[]

-- the text of a node itself
unfoldable pub direct_text : Fields → List String
direct_text end = List.[]
direct_text (field key v fs) = if key == "text" then text_value v else direct_text fs

-- `[...a, ...b]`, where either may have thrown
abbrev pub both : Option (List String) → Option (List String) → Option (List String)
both none b = none
both (some xs) none = none
both (some xs) (some ys) = some (List.◌++◌ xs ys)

-- `none` is the TypeError of reading a property of `null`; any other value that is no object has
-- no such property.
unfoldable mutual
  pub extract_text : Items → Option (List String)
  extract_text nil = some List.[]
  extract_text (cons node nodes) = both (extract_node node) (extract_text nodes)

  pub extract_node : Json → Option (List String)
  extract_node null = none
  extract_node (obj fs) = both (some (direct_text fs)) (nested_content fs)
  extract_node _ = some List.[]

  -- `Array.isArray(node.content) ? extractText(node.content) : []`
  pub nested_content : Fields → Option (List String)
  nested_content end = some List.[]
  nested_content (field key v fs) =
      let rest = nested_content fs in if key == "content" then array_content v else rest

  pub array_content : Json → Option (List String)
  array_content (arr nodes) = extract_text nodes
  array_content _ = some List.[]

-- `lines.join('\n')`
abbrev pub join_lines : List String → String
join_lines List.[] = ""
join_lines (List.◌∷◌ s List.[]) = s
join_lines (List.◌∷◌ s (List.◌∷◌ t ts)) = s ++ "\n" ++ join_lines (List.◌∷◌ t ts)

abbrev plain_text_of_content : Option Items → Option String
plain_text_of_content none = some ""
plain_text_of_content (some nil) = some ""
plain_text_of_content (some (cons node nodes)) =
    Option.map (λ lines. trim (join_lines lines)) (extract_text (cons node nodes))

unfoldable pub get_plain_text_from_rich_text : Option RichTextDocument → Option String
unfolding extract_text trim
get_plain_text_from_rich_text none = some ""
get_plain_text_from_rich_text (some document) = plain_text_of_content document.content

pub record Content : Type 0 where
  pub text : String
  pub json : Option RichTextDocument

-- the body of the three functions below: the derived text, or the plain field where it is empty
unfoldable pub content_or : String → Option RichTextDocument → Option Content
content_or plain json =
    Option.map (λ derived. record { text = or_text derived plain; json = json })
      (get_plain_text_from_rich_text json)

unfoldable pub get_incident_content : Incident → Option Content
unfolding content_or
get_incident_content incident = content_or incident.description incident.description_json

unfoldable pub get_incident_update_content : IncidentUpdate → Option Content
unfolding content_or
get_incident_update_content update = content_or update.message update.message_json

unfoldable pub get_maintenance_content : Maintenance → Option Content
unfolding content_or
get_maintenance_content maintenance =
    content_or maintenance.description maintenance.description_json
