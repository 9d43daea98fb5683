-- ===== src/Json/Value.antt =====
-- The values, and their compact text with the keys of each object sorted.
use Prim.Native.String.{◌++◌}
use visible_agent_loop_proto.Prelude.{ℤ, String, List, [], ◌∷◌, map}
use visible_agent_loop_proto.Json.Text.{decimal, quoted, join, sorted}

mutual
  pub data Json : Type 0 where
    null : Json
    int : ℤ → Json
    str : String → Json
    arr : Items → Json
    obj : Fields → Json

  pub data Items : Type 0 where
    no_items : Items
    item : Json → Items → Items

  pub data Fields : Type 0 where
    no_fields : Fields
    field : String → Json → Fields → Fields

abbrev pub item_list : List Json → Items
item_list [] = no_items
item_list (x ∷ rest) = item x (item_list rest)

abbrev pub field_list : List (String × Json) → Fields
field_list [] = no_fields
field_list ((key, value) ∷ rest) = field key value (field_list rest)

-- A list of values, and a dict display.
abbrev pub items : List Json → Json
items xs = arr (item_list xs)

abbrev pub fields : List (String × Json) → Json
fields xs = obj (field_list xs)

abbrev pub member_text : String × String → String
member_text (key, text) = quoted key ++ ":" ++ text

unfoldable mutual
  pub dumps : Json → String
  dumps null = "null"
  dumps (int n) = decimal n
  dumps (str s) = quoted s
  dumps (arr xs) = "[" ++ join "," (dumps_items xs) ++ "]"
  dumps (obj fs) = "{" ++ join "," (map member_text (sorted (λ m. m.0) (dumps_fields fs))) ++ "}"

  pub dumps_items : Items → List String
  dumps_items no_items = []
  dumps_items (item x xs) = dumps x ∷ dumps_items xs

  pub dumps_fields : Fields → List (String × String)
  dumps_fields no_fields = []
  dumps_fields (field key value fs) = (key, dumps value) ∷ dumps_fields fs
