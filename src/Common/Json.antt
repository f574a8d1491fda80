-- ===== src/Common/Json.antt =====
-- Values of Go's `any` and of JSON documents: what a `map[string]any` holds. A number is kept as
-- the text of its literal, since the program never computes with one.
use Prim.Native.String.{String}
use mathlib.Core.Bool.{Bool}
use mathlib.Core.List.{List}

mutual
  pub data Json : Type 0 where
    null : Json
    bool : Bool → Json
    num : String → Json
    str : String → Json
    arr : Items → Json
    obj : Fields → Json

  pub data Items : Type 0 where
    nil : Items
    cons : Json → Items → Items

  pub data Fields : Type 0 where
    end : Fields
    field : String → Json → Fields → Fields

-- A `map[string]any`; the nil map and the empty one are both `[]`.
abbrev pub Details : Type 0
Details = List (String × Json)
