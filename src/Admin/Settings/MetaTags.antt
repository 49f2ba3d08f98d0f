-- ===== src/Admin/Settings/MetaTags.antt =====
-- apps/web/src/pages/admin/AdminSettings.tsx: meta tags as lines of text. A `Record<string, string>`
-- is a list of its entries, a key at most once, in the order in which they were set.
use Prim.Native.Char.{Char, code}
use Prim.Native.String.{String, [], ◌∷◌, ◌++◌}
use mathlib.Core.Path.{◌≡◌, refl, sym, ap, ◌∙◌}
use mathlib.Core.Bool.{true, false}
use mathlib.Core.Option.{Option, none, some}
use mathlib.Core.List
use mathlib.Core.List.{List, map, append_assoc, append-nil}
use text.Mathlib.TextLemmas.{nil-append, cons-append}
use statora.Prelude.Tests.{nat_eq, if◌then◌else◌}
use statora.Prelude.Equality.{◌==◌, ==-comm, String_eq}
use statora.Prelude.Lists.{filter}
use statora.Prelude.Reading.{split_on, split_on-Lacks, split_on-append, Lacks}
use statora.Prelude.Text.{
  is_truthy, is_space, trim, trim_start, trim_end, trim_start_of_StartsClean, StartsClean,
  trimmed-StartsClean, trim_end_of_trimmed, trim_end-append, trim_end-cons, append_truthy,
}
use statora.Content.{join_lines}

-- The entries of the object in their order. An object of the run-time lists keys that are whole
-- numbers first; here they keep their place.
abbrev pub Tags : Type 0
Tags = List (String × String)

-- `tags[key] = value`
unfoldable pub set_tag : String → String → Tags → Tags
set_tag key value List.[] = List.◌∷◌ (key, value) List.[]
set_tag key value (List.◌∷◌ (k, v) tags) =
    let rest = set_tag key value tags in
    if k == key then List.◌∷◌ (k, value) tags else List.◌∷◌ (k, v) rest

abbrev with_first : Char → Option (String × String) → Option (String × String)
with_first c none = none
with_first c (some (key, value)) = some (c ∷ key, value)

-- the texts before and after the first colon, if there is one
unfoldable pub cut_at_colon : String → Option (String × String)
cut_at_colon [] = none
cut_at_colon (c ∷ s) =
    let rest = cut_at_colon s in
    if nat_eq (code c) (code ":") then some ([], s) else with_first c rest

-- A colon at the very start leaves no key, and neither does white space before it.
unfoldable pub add_line : String → Tags → Tags
unfolding cut_at_colon trim set_tag
add_line line tags = elim (cut_at_colon line) [
  | none ↦ tags
  | some (key, value) ↦ if is_truthy (trim key) then set_tag (trim key) (trim value) tags else tags
]

unfoldable pub add_lines : List String → Tags → Tags
unfolding add_line
add_lines List.[] tags = tags
add_lines (List.◌∷◌ line lines) tags = add_lines lines (add_line line tags)

unfoldable pub parse_meta_tags_text : String → Tags
unfolding split_on trim add_lines
parse_meta_tags_text value = add_lines (filter is_truthy (map trim (split_on "\n" value))) List.[]

abbrev pub line_of : String × String → String
line_of (key, value) = key ++ ": " ++ value

unfoldable pub meta_tags_to_text : Tags → String
meta_tags_to_text tags = join_lines (map line_of tags)

-- a key that is read back as it is: not empty, trimmed, with neither a colon nor a line end
pub record IsKey (key : String) : Type 0 where
  pub truthy : is_truthy key ≡ true
  pub trimmed : trim key ≡ key
  pub no_colon : Lacks ":" key
  pub no_line_end : Lacks "\n" key

-- a value that is read back as it is
pub record IsValue (value : String) : Type 0 where
  pub trimmed : trim value ≡ value
  pub no_line_end : Lacks "\n" value

-- no entry of the key
abbrev pub LacksKey : String → Tags → Type 0
LacksKey key List.[] = Unit
LacksKey key (List.◌∷◌ (k, v) tags) = ((k == key) ≡ false) × LacksKey key tags

abbrev pub AreClean : Tags → Type 0
AreClean List.[] = Unit
AreClean (List.◌∷◌ (k, v) tags) = IsKey k × IsValue v × LacksKey k tags × AreClean tags

cut-append :
    (key rest : String) → Lacks ":" key → cut_at_colon (key ++ ":" ∷ rest) ≡ some (key, rest)
unfolding cut_at_colon
cut-append [] rest h = rw nil-append
cut-append (c ∷ key) rest h = rw cons-append (rw (h.0, cut-append key rest h.1))

-- what stands after the colon of an entry's line once the line is trimmed
abbrev after_colon : String → String
after_colon [] = []
after_colon (c ∷ v) = " " ∷ c ∷ v

trim_end-colon : (v : String) → trim_end v ≡ v → trim_end (":" ∷ " " ∷ v) ≡ ":" ∷ after_colon v
trim_end-colon [] h = unfold trim_end is_space in refl
trim_end-colon (c ∷ v) h =
    let one = trim_end-cons " " (c ∷ v) (rw h) in
    let two = trim_end-cons ":" (" " ∷ c ∷ v) (rw one) in
    two ∙ ap (λ s. ":" ∷ s) (one ∙ ap (λ s. " " ∷ s) h)

colon-append : (v : String) → ": " ++ v ≡ ":" ∷ " " ∷ v
colon-append v = rw cons-append (rw cons-append (rw nil-append))

trim-after_colon : (v : String) → trim v ≡ v → trim (after_colon v) ≡ v
unfolding trim trim_start is_space
trim-after_colon [] h = refl
trim-after_colon (c ∷ v) h = h

StartsClean-append : (k t : String) → is_truthy k ≡ true → StartsClean k → StartsClean (k ++ t)
StartsClean-append [] t h c = absurd cc
StartsClean-append (x ∷ k) t h c = rw cons-append c

trim-line_of :
    (k v : String) → IsKey k → IsValue v → trim (line_of (k, v)) ≡ k ++ ":" ∷ after_colon v
unfolding trim
trim-line_of k v key value =
    let starts = StartsClean-append k (": " ++ v) key.truthy (trimmed-StartsClean k key.trimmed) in
    let ends = trim_end-colon v (trim_end_of_trimmed v value.trimmed) in
    let kept : is_truthy (trim_end (":" ∷ " " ∷ v)) ≡ true = rw ends in
    rw (trim_start_of_StartsClean (line_of (k, v)) starts)
      (rw (colon-append v) (trim_end-append k (":" ∷ " " ∷ v) kept ∙ ap (λ t. k ++ t) ends))

add_line-line_of :
    (k v : String) (tags : Tags)
    → IsKey k
    → IsValue v
    → add_line (trim (line_of (k, v))) tags ≡ set_tag k v tags
unfolding add_line
add_line-line_of k v tags key value = rw (trim-line_of k v key value) (
    rw (add_line, cut-append k (after_colon v) key.no_colon)
      (rw (key.trimmed, key.truthy, trim-after_colon v value.trimmed)))

line_of_truthy : (k v : String) → IsKey k → IsValue v → is_truthy (trim (line_of (k, v))) ≡ true
line_of_truthy k v key value =
    rw (trim-line_of k v key value) (append_truthy k (":" ∷ after_colon v) refl)

Lacks-append : (c : Char) (s t : String) → Lacks c s → Lacks c t → Lacks c (s ++ t)
Lacks-append c [] t h k = rw nil-append k
Lacks-append c (x ∷ s) t h k = rw cons-append (h.0, Lacks-append c s t h.1 k)

line_of-Lacks : (k v : String) → IsKey k → IsValue v → Lacks "\n" (line_of (k, v))
line_of-Lacks k v key value =
    Lacks-append "\n" k (": " ++ v) key.no_line_end
      (rw (colon-append v) (refl, (refl, value.no_line_end)))

newline-append : (s : String) → "\n" ++ s ≡ "\n" ∷ s
newline-append s = rw cons-append (rw nil-append)

-- the lines of a text that was printed
split_on-join_lines :
    (tag : String × String) (tags : Tags)
    → AreClean (List.◌∷◌ tag tags)
    → split_on "\n" (meta_tags_to_text (List.◌∷◌ tag tags)) ≡ map line_of (List.◌∷◌ tag tags)
unfolding meta_tags_to_text
split_on-join_lines (k, v) List.[] h =
    split_on-Lacks "\n" (line_of (k, v)) (line_of-Lacks k v h.0 h.1)
split_on-join_lines (k, v) (List.◌∷◌ tag tags) h =
    rw (newline-append (meta_tags_to_text (List.◌∷◌ tag tags))) (
      split_on-append "\n" (line_of (k, v)) (meta_tags_to_text (List.◌∷◌ tag tags))
        (line_of-Lacks k v h.0 h.1)
      ∙ ap (List.◌∷◌ (line_of (k, v))) (split_on-join_lines tag tags h.3))

-- a key that is new is set last
set_tag-new :
    (key value : String) (tags : Tags)
    → LacksKey key tags
    → set_tag key value tags ≡ List.◌++◌ tags (List.◌∷◌ (key, value) List.[])
unfolding set_tag
set_tag-new key value List.[] h = refl
set_tag-new key value (List.◌∷◌ (k, v) tags) h = rw (h.0, set_tag-new key value tags h.1)

Lacks_key-snoc :
    (k j v : String) (acc : Tags)
    → (j == k) ≡ false
    → LacksKey k acc
    → LacksKey k (List.◌++◌ acc (List.◌∷◌ (j, v) List.[]))
Lacks_key-snoc k j v List.[] ne h = (ne, tt)
Lacks_key-snoc k j v (List.◌∷◌ entry acc) ne h = (h.0, Lacks_key-snoc k j v acc ne h.1)

-- no key of the tags is in `acc`
Apart : Tags → Tags → Type 0
Apart acc List.[] = Unit
Apart acc (List.◌∷◌ (k, v) tags) = LacksKey k acc × Apart acc tags

Apart-snoc :
    (j v : String) (acc tags : Tags)
    → LacksKey j tags
    → Apart acc tags
    → Apart (List.◌++◌ acc (List.◌∷◌ (j, v) List.[])) tags
unfolding Apart
Apart-snoc j v acc List.[] ne h = tt
Apart-snoc j v acc (List.◌∷◌ (k, w) tags) ne h =
    (Lacks_key-snoc k j v acc (==-comm j k ∙ ne.0) h.0, Apart-snoc j v acc tags ne.1 h.1)

Apart-empty : (tags : Tags) → Apart List.[] tags
unfolding Apart
Apart-empty List.[] = tt
Apart-empty (List.◌∷◌ tag tags) = (tt, Apart-empty tags)

add_lines-lines_of :
    (tags acc : Tags)
    → AreClean tags
    → Apart acc tags
    → add_lines (filter is_truthy (map trim (map line_of tags))) acc ≡ List.◌++◌ acc tags
unfolding add_lines Apart
add_lines-lines_of List.[] acc h a = sym (append-nil acc)
add_lines-lines_of (List.◌∷◌ (k, v) tags) acc h a =
    let next = List.◌++◌ acc (List.◌∷◌ (k, v) List.[]) in
    let rest = filter is_truthy (map trim (map line_of tags)) in
    let added = add_line-line_of k v acc h.0 h.1 ∙ set_tag-new k v acc a.0 in
    rw (line_of_truthy k v h.0 h.1) (
      ap (add_lines rest) added
      ∙ add_lines-lines_of tags next h.3 (Apart-snoc k v acc tags h.2 a.1)
      ∙ append_assoc acc (List.◌∷◌ (k, v) List.[]) tags)

-- Meta tags that were printed are read back as they were, if their keys are distinct, not empty,
-- trimmed and without colon and line end, and their values trimmed and without line end.
pub parse_meta_tags_text-meta_tags_to_text :
    (tags : Tags) → AreClean tags → parse_meta_tags_text (meta_tags_to_text tags) ≡ tags
unfolding parse_meta_tags_text
parse_meta_tags_text-meta_tags_to_text List.[] h = unfold meta_tags_to_text in refl
parse_meta_tags_text-meta_tags_to_text (List.◌∷◌ tag tags) h =
    rw (split_on-join_lines tag tags h)
      (add_lines-lines_of (List.◌∷◌ tag tags) List.[] h (Apart-empty (List.◌∷◌ tag tags)))
