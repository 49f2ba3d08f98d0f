-- ===== src/Types/Json.antt =====
-- Values of `unknown` type that came out of `JSON.parse`, and rich text, which is such a value.
use Prim.Native.Nat.{ℕ}
use Prim.Native.String.{String}
use mathlib.Core.Bool.{Bool}
use mathlib.Core.Option.{Option}

-- A JSON number: `digits / 10 ^ scale`, with its sign. The modelled code hands such numbers on and
-- computes nothing with them.
pub record Decimal : Type 0 where
  pub negative : Bool
  pub digits : ℕ
  pub scale : ℕ

mutual
  pub data Json : Type 0 where
    null : Json
    boolean : Bool → Json
    number : Decimal → Json
    str : String → Json
    arr : Items → Json
    obj : Fields → Json

  pub data Items : Type 0 where
    nil : Items
    cons : Json → Items → Items

  -- the properties of an object; a name stands once
  pub data Fields : Type 0 where
    end : Fields
    field : String → Json → Fields → Fields

-- `type` is always 'doc'
pub record RichTextDocument : Type 0 where
  pub content : Option Items
