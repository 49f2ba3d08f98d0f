-- ===== src/Auth/Storage.antt =====
-- The browser's `localStorage` as the code uses it, and JSON texts of one type of record.
use Prim.Native.String.{String}
use mathlib.Core.Path.{◌≡◌}
use mathlib.Core.Bool.{true}
use mathlib.Core.Option.{Option, none, some}
use statora.Prelude.Tests.{if◌then◌else◌}
use statora.Prelude.Equality.{◌==◌, String_eq}
use statora.Prelude.Text.{is_truthy}

-- the text under each key, `none` for `null`
abbrev pub LocalStorage : Type 0
LocalStorage = String → Option String

abbrev pub get_item : String → LocalStorage → Option String
get_item key store = store key

abbrev pub set_item : String → String → LocalStorage → LocalStorage
set_item key value store = λ k. if k == key then some value else store k

abbrev pub remove_item : String → LocalStorage → LocalStorage
remove_item key store = λ k. if k == key then none else store k

-- `JSON.stringify` and `JSON.parse` at a type. `none` stands for a text that makes `parse` throw,
-- and for profiles also for the text of `null`. What `stringify` writes is not empty and is read
-- back as it was.
pub record Codec {ℓ} (A : Type ℓ) : Type ℓ where
  pub stringify : A → String
  pub parse : String → Option A
  pub parse-stringify : (a : A) → parse (stringify a) ≡ some a
  pub stringify_truthy : (a : A) → is_truthy (stringify a) ≡ true
