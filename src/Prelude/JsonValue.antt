-- ===== src/Prelude/JsonValue.antt =====
-- encoding/json: a value that was read. A number is its text. The members of an object are in the
-- order of the text; where the program reads into a Go map, each name has one member.
use Prim.Native.String.{String}
use mathlib.Core.Bool.{Bool}
use mathlib.Core.List.{List, [], ◌∷◌}

mutual
  pub data Json : Type 0 where
    null : Json
    boolean : Bool → Json
    number : String → Json
    str : String → Json
    array : Items → Json
    object : Members → Json

  pub data Items : Type 0 where
    no_items : Items
    item : Json → Items → Items

  pub data Members : Type 0 where
    no_members : Members
    member : String → Json → Members → Members

abbrev pub items : Items → List Json
items no_items = []
items (item v vs) = v ∷ items vs

abbrev pub members : Members → List (String × Json)
members no_members = []
members (member k v vs) = (k, v) ∷ members vs
