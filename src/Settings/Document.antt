-- ===== src/Settings/Document.antt =====
-- apps/web/src/lib/statusPageSettings.ts: the settings written into the document.
pub mod Laws
use Prim.Native.String.{String}
use mathlib.Core.Bool.{Bool, true, false, not, ◌&&◌, ◌||◌}
use mathlib.Core.Option.{Option, none, some}
use mathlib.Core.List.{List, [], ◌∷◌, ◌++◌}
use text.Mathlib.Text.{starts_with}
use statora.Prelude.Tests.{if◌then◌else◌}
use statora.Prelude.Equality.{◌==◌, String_eq, Option_eq}
use statora.Prelude.Lists.{filter, any}
use statora.Prelude.Text.{is_truthy}
use statora.Types.Settings.{StatusPageSettings}
use statora.Settings.{normalize_status_page_settings}
use statora.Settings.Partial.{PartialSettings}

-- a `meta` element; `marked` is `data-status-page-meta="true"`
pub record Meta : Type 0 where
  pub name : Option String
  pub property : Option String
  pub content : String
  pub marked : Bool

-- the children of `document.head`, in document order
pub data Node : Type 0 where
  meta : Meta → Node
  link : (rel href : String) → Node
  style : (id text : String) → Node
  other : String → Node

pub record Document : Type 0 where
  pub title : String
  pub head : List Node

-- `meta[name="…"]`
abbrev pub is_meta_named : String → Node → Bool
is_meta_named name (meta m) = m.name == some name
is_meta_named name _ = false

-- `meta[data-status-page-meta="true"]`
abbrev pub is_custom : Node → Bool
is_custom (meta m) = m.marked
is_custom _ = false

-- `link[rel="icon"]`
abbrev pub is_icon : Node → Bool
is_icon (link rel href) = rel == "icon"
is_icon _ = false

abbrev pub has_id : String → Node → Bool
has_id id (style other_id text) = other_id == id
has_id id _ = false

-- The first node that passes the test, as `querySelector` finds it, is changed in place.
unfoldable pub update_first : (Node → Bool) → (Node → Node) → List Node → List Node
update_first p f [] = []
update_first p f (n ∷ ns) = let rest = update_first p f ns in if p n then f n ∷ ns else n ∷ rest

unfoldable pub remove_first : (Node → Bool) → List Node → List Node
remove_first p [] = []
remove_first p (n ∷ ns) = let rest = remove_first p ns in if p n then ns else n ∷ rest

abbrev pub set_content : String → Node → Node
set_content content (meta m) = meta (record m { content = content })
set_content content n = n

abbrev pub set_href : String → Node → Node
set_href url (link rel href) = link rel url
set_href url n = n

abbrev pub set_text : String → Node → Node
set_text css (style id text) = style id css
set_text css n = n

-- `upsertMetaTag('name="…"', content)`; both calls give a selector of this form
unfoldable pub upsert_meta_tag : String → String → List Node → List Node
upsert_meta_tag name content head =
    let existing = any (is_meta_named name) head in
    if is_truthy content
    then if existing
      then update_first (is_meta_named name) (set_content content) head
      else head
        ++ meta (record { name = some name; property = none; content = content; marked = false })
          ∷ []
    else if existing
    then remove_first (is_meta_named name) head
    else head

-- the element made of one entry
unfoldable pub custom_meta : String × String → Node
custom_meta (key, value) =
    let is_property = starts_with key "og:" || starts_with key "twitter:" in
    meta (record {
      name = if is_property then none else some key;
      property = if is_property then some key else none;
      content = value;
      marked = true;
    })

-- the entries from which an element is made, in their order
unfoldable pub custom_metas : List (String × String) → List Node
custom_metas [] = []
custom_metas ((key, value) ∷ entries) =
    let rest = custom_metas entries in
    if not (is_truthy key) || not (is_truthy value) then rest else custom_meta (key, value) ∷ rest

unfoldable pub set_custom_meta_tags : List (String × String) → List Node → List Node
set_custom_meta_tags meta_tags head = filter (λ n. not (is_custom n)) head ++ custom_metas meta_tags

unfoldable pub upsert_favicon : String → List Node → List Node
upsert_favicon url head =
    let found = if any is_icon head then head else head ++ link "icon" "" ∷ [] in
    update_first is_icon (set_href url) found

abbrev pub css_id : String
css_id = "status-page-custom-css"

unfoldable pub upsert_custom_css : String → List Node → List Node
upsert_custom_css css head =
    let found = if any (has_id css_id) head then head else head ++ style css_id "" ∷ [] in
    update_first (has_id css_id) (set_text css) found

unfoldable pub apply_status_page_document_settings : StatusPageSettings → Document → Document
unfolding upsert_meta_tag set_custom_meta_tags upsert_favicon upsert_custom_css
apply_status_page_document_settings settings document = record {
  title = settings.head.title;
  head = upsert_custom_css settings.custom_css (
      upsert_favicon settings.head.favicon_url (
        set_custom_meta_tags settings.head.meta_tags (
          upsert_meta_tag "keywords" settings.head.keywords
            (upsert_meta_tag "description" settings.head.description document.head))));
}

unfoldable pub apply_status_page_head_settings : PartialSettings → Document → Document
unfolding apply_status_page_document_settings normalize_status_page_settings
apply_status_page_head_settings settings document =
    apply_status_page_document_settings (normalize_status_page_settings (some settings)) document
