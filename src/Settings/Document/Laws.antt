-- ===== src/Settings/Document/Laws.antt =====
-- Lemmas on the document of apps/web/src/lib/statusPageSettings.ts.
use Prim.Native.String.{String}
use mathlib.Core.Path.{◌≡◌, refl, ap, ◌∙◌}
use mathlib.Core.Logic.{inl, inr}
use mathlib.Core.Bool.{Bool, true, false, not, ◌&&◌, ◌||◌}
use mathlib.Core.Option
use mathlib.Core.Option.{Option, none, some}
use mathlib.Core.List.{List, [], ◌∷◌, ◌++◌, map, append-nil}
use native.Mathlib.Omega.{arith}
use statora.Prelude.Tests.{if◌then◌else◌, is_some, Bool-cases}
use statora.Prelude.Lists.{filter, any}
use statora.Prelude.Perms.{filter-append}
use statora.Prelude.Text.{is_truthy}
use text.Mathlib.Text.{starts_with}
use statora.Types.Settings.{StatusPageSettings}
use statora.Settings.Document.{
  Node, meta, link, style, other, Document, is_custom, is_icon, has_id, css_id, update_first,
  set_href, set_text, custom_meta, custom_metas, set_custom_meta_tags, upsert_favicon,
  upsert_custom_css, upsert_meta_tag, apply_status_page_document_settings,
}

-- a test whose nodes are not seen by another test, before and after a change in place
filter-update_first :
    (p q : Node → Bool) (f : Node → Node) (ns : List Node)
    → ((n : Node) → p n ≡ true → q n ≡ false)
    → ((n : Node) → p n ≡ true → q (f n) ≡ false)
    → filter q (update_first p f ns) ≡ filter q ns
unfolding update_first
filter-update_first p q f [] h k = refl
filter-update_first p q f (n ∷ ns) h k = elim (Bool-cases (p n)) [
  | inl here ↦ rw (here, h n here, k n here) refl
  | inr there ↦ rw (there, filter-update_first p q f ns h k) refl
]

filter-custom_metas :
    (entries : List (String × String))
    → filter is_custom (custom_metas entries) ≡ custom_metas entries
unfolding custom_metas custom_meta
filter-custom_metas [] = refl
filter-custom_metas ((key, value) ∷ entries) = ground (arith, filter-custom_metas entries)

filter-not_custom : (ns : List Node) → filter is_custom (filter (λ n. not (is_custom n)) ns) ≡ []
filter-not_custom [] = refl
filter-not_custom (n ∷ ns) = ground (arith, filter-not_custom ns)

filter-set_custom_meta_tags :
    (entries : List (String × String)) (head : List Node)
    → filter is_custom (set_custom_meta_tags entries head) ≡ custom_metas entries
unfolding set_custom_meta_tags
filter-set_custom_meta_tags entries head =
    filter-append is_custom (filter (λ n. not (is_custom n)) head) (custom_metas entries)
    ∙ rw (filter-not_custom head) (filter-custom_metas entries)

icon-not_custom : (n : Node) → is_icon n ≡ true → is_custom n ≡ false
icon-not_custom (meta m) h = ground (arith, h)
icon-not_custom (link rel href) h = refl
icon-not_custom (style id text) h = refl
icon-not_custom (other text) h = refl

href-not_custom : (url : String) (n : Node) → is_icon n ≡ true → is_custom (set_href url n) ≡ false
href-not_custom url (meta m) h = ground (arith, h)
href-not_custom url (link rel href) h = refl
href-not_custom url (style id text) h = refl
href-not_custom url (other text) h = refl

style-not_custom : (n : Node) → has_id css_id n ≡ true → is_custom n ≡ false
style-not_custom (meta m) h = ground (arith, h)
style-not_custom (link rel href) h = refl
style-not_custom (style id text) h = refl
style-not_custom (other text) h = refl

text-not_custom :
    (css : String) (n : Node) → has_id css_id n ≡ true → is_custom (set_text css n) ≡ false
text-not_custom css (meta m) h = ground (arith, h)
text-not_custom css (link rel href) h = refl
text-not_custom css (style id text) h = refl
text-not_custom css (other text) h = refl

filter-add_unless :
    (found : Bool) (n : Node) (head : List Node)
    → is_custom n ≡ false
    → filter is_custom (if found then head else head ++ n ∷ []) ≡ filter is_custom head
filter-add_unless true n head h = refl
filter-add_unless false n head h =
    filter-append is_custom head (n ∷ []) ∙ rw h (append-nil (filter is_custom head))

filter-upsert_favicon :
    (url : String) (head : List Node)
    → filter is_custom (upsert_favicon url head) ≡ filter is_custom head
unfolding upsert_favicon
filter-upsert_favicon url head =
    filter-update_first is_icon is_custom (set_href url) _ icon-not_custom (href-not_custom url)
    ∙ filter-add_unless (any is_icon head) (link "icon" "") head refl

filter-upsert_custom_css :
    (css : String) (head : List Node)
    → filter is_custom (upsert_custom_css css head) ≡ filter is_custom head
unfolding upsert_custom_css
filter-upsert_custom_css css head =
    filter-update_first (has_id css_id) is_custom (set_text css) _ style-not_custom
      (text-not_custom css)
    ∙ filter-add_unless (any (has_id css_id) head) (style css_id "") head refl

-- whether a key is written as a `property`
abbrev pub is_social : String → Bool
is_social key = starts_with key "og:" || starts_with key "twitter:"

-- whether an element has its key as `property` and not as `name`, the key, and the content
abbrev pub read_meta : Node → Option (Bool × String × String)
read_meta (meta m) = elim m.property [
  | none ↦ Option.map (λ key. (false, key, m.content)) m.name
  | some key ↦ if is_some m.name then none else some (true, key, m.content)
]
read_meta _ = none

-- the entries with a key and a content, each with how its key is written
abbrev pub wanted : List (String × String) → List (Option (Bool × String × String))
wanted entries =
    map (λ e. some (is_social e.0, e.0, e.1)) (filter (λ e. is_truthy e.0 && is_truthy e.1) entries)

read_meta-custom_meta :
    (key value : String) → read_meta (custom_meta (key, value)) ≡ some (is_social key, key, value)
unfolding custom_meta
read_meta-custom_meta key value = elim (Bool-cases (is_social key)) [
  | inl social ↦ rw (social, custom_meta) refl
  | inr plain ↦ rw (plain, custom_meta) refl
]

read-custom_metas :
    (entries : List (String × String)) → map read_meta (custom_metas entries) ≡ wanted entries
unfolding custom_metas
read-custom_metas [] = refl
read-custom_metas ((key, value) ∷ entries) = elim (Bool-cases (is_truthy key)) [
  | inl keyed ↦ elim (Bool-cases (is_truthy value)) [
    | inl filled ↦
        rw (keyed, filled) (rw (read_meta-custom_meta key value, read-custom_metas entries) refl)
    | inr blank ↦ rw (keyed, blank) (read-custom_metas entries)
  ]
  | inr unkeyed ↦ rw unkeyed (read-custom_metas entries)
]

-- Once settings are applied, the marked `meta` elements of the document are one for each entry of
-- `metaTags` with a key and a value, in their order, whatever was applied before: the key is its
-- `property` if it begins with "og:" or "twitter:" and else its `name`, and the value its content.
pub custom-apply_status_page_document_settings :
    (settings : StatusPageSettings) (document : Document)
    → map read_meta (filter is_custom (apply_status_page_document_settings settings document).head)
      ≡ wanted settings.head.meta_tags
unfolding apply_status_page_document_settings
custom-apply_status_page_document_settings settings document =
    let described = upsert_meta_tag "description" settings.head.description document.head in
    let named = upsert_meta_tag "keywords" settings.head.keywords described in
    let marked = set_custom_meta_tags settings.head.meta_tags named in
    ap (map read_meta) (
      filter-upsert_custom_css settings.custom_css (upsert_favicon settings.head.favicon_url marked)
      ∙ filter-upsert_favicon settings.head.favicon_url marked
      ∙ filter-set_custom_meta_tags settings.head.meta_tags named)
    ∙ read-custom_metas settings.head.meta_tags
