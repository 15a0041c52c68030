-- ===== src/ConfigGraph/Json/Access.antt =====
-- The reads of a `serde_json::Value`. The objects that the program builds name no member twice.
use ds_sql_dps_rs.Prelude.{
  String, Bool, false, Option, none, some, List, [], ◌∷◌, ◌==◌, if◌then◌else◌,
}
use ds_sql_dps_rs.ConfigGraph.Json.{
  Json, null, string, arr, obj, Items, nil, cons, Fields, end, field,
}

abbrev pub member : String → Fields → Option Json
member name end = none
member name (field other value rest) =
    let found = member name rest in if other == name then some value else found

-- `Value::get`
abbrev pub get : String → Json → Option Json
get name null = none
get name (string s) = none
get name (arr xs) = none
get name (obj fs) = member name fs

abbrev or_null : Option Json → Json
or_null none = null
or_null (some value) = value

-- `value[name]`, which is `null` where there is no such member.
abbrev pub index : Json → String → Json
index value name = or_null (get name value)

abbrev pub list_of : Items → List Json
list_of nil = []
list_of (cons x xs) = x ∷ list_of xs

-- `Value::as_array`
abbrev pub as_array : Json → Option (List Json)
as_array null = none
as_array (string s) = none
as_array (arr xs) = some (list_of xs)
as_array (obj fs) = none

-- `Value::as_str`
abbrev pub as_str : Json → Option String
as_str null = none
as_str (string s) = some s
as_str (arr xs) = none
as_str (obj fs) = none

-- `value == text`
abbrev pub is_text : Json → String → Bool
is_text null t = false
is_text (string s) t = s == t
is_text (arr xs) t = false
is_text (obj fs) t = false
