-- ===== src/ConfigGraph/Json.antt =====
-- `serde_json::Value`, as far as the program builds it. An object lists its fields as written.
pub mod Access
use ds_sql_dps_rs.Prelude.{String, List, [], ◌∷◌}

mutual
  pub data Json : Type 0 where
    null : Json
    string : String → Json
    arr : Items → Json
    obj : Fields → Json

  pub data Items : Type 0 where
    nil : Items
    cons : Json → Items → Items

  pub data Fields : Type 0 where
    end : Fields
    field : String → Json → Fields → Fields

abbrev pub items : List Json → Items
items [] = nil
items (x ∷ xs) = cons x (items xs)

abbrev pub strings : List String → Items
strings [] = nil
strings (x ∷ xs) = cons (string x) (strings xs)
