-- ===== src/ConfigGraph/Policy/Shape.antt =====
-- What form a policy document has, whatever the graph holds (`policy_jsonld` of
-- config-graph/src/store.rs).
pub mod Laws
use ds_sql_dps_rs.Prelude.{
  String, Bool, true, false, ◌&&◌, Option, none, some, List, [], ◌∷◌, flat_map,
}
use ds_sql_dps_rs.Rdf.{Term}
use ds_sql_dps_rs.Sparql.{Solution, get}
use ds_sql_dps_rs.ConfigGraph.Json.{Json}
use ds_sql_dps_rs.ConfigGraph.Json.Access.{get as member_of, index, as_array, as_str, is_text}
use ds_sql_dps_rs.ConfigGraph.Store.{value_of}
use ds_sql_dps_rs.ConfigGraph.Policy.{text_of, constraint_json}

abbrev pub is_some {ℓ} : {A : Type ℓ} → Option A → Bool
is_some none = false
is_some (some a) = true

abbrev pub all {ℓ} : {A : Type ℓ} → (A → Bool) → List A → Bool
all test [] = true
all test (x ∷ xs) = test x && all test xs

-- The member is a string.
abbrev pub has_text : String → Json → Bool
has_text name value = is_some (as_str (index value name))

abbrev pub is_constraint : Json → Bool
is_constraint c = has_text "leftOperand" c && (has_text "operator" c && has_text "rightOperand" c)

-- An array of constraints, with one at least.
abbrev pub are_constraints : Option (List Json) → Bool
are_constraints none = false
are_constraints (some []) = false
are_constraints (some (c ∷ cs)) = all is_constraint (c ∷ cs)

-- A member for the constraints may be missing.
abbrev pub may_be_constraints : Option Json → Bool
may_be_constraints none = true
may_be_constraints (some value) = are_constraints (as_array value)

abbrev pub is_permission : Json → Bool
is_permission p = has_text "action" p && may_be_constraints (member_of "constraint" p)

abbrev pub are_permissions : Option (List Json) → Bool
are_permissions none = false
are_permissions (some ps) = all is_permission ps

-- An ODRL offer under this identifier.
abbrev pub is_offer : String → Json → Bool
is_offer id doc =
    is_text (index doc "@context") "http://www.w3.org/ns/odrl.jsonld"
    && (is_text (index doc "@id") id
        && (is_text (index doc "@type") "Offer"
            && (has_text "target" doc
                && (has_text "assigner" doc
                    && are_permissions (as_array (index doc "permission"))))))

abbrev pub or_empty : Option (List Json) → List Json
or_empty none = []
or_empty (some xs) = xs

abbrev pub constraints_of : Json → List Json
constraints_of p = or_empty (as_array (index p "constraint"))

-- The constraints of all permissions of a document, one after the other.
abbrev pub constraints_in : Json → List Json
constraints_in doc = flat_map constraints_of (or_empty (as_array (index doc "permission")))

-- The constraint of a row, if its left operand is bound to a value.
abbrev pub left_constraint : Solution → Option String → List Json
left_constraint row none = []
left_constraint row (some left) = constraint_json left (text_of "op" row) (text_of "right" row) ∷ []

abbrev pub bound_constraint : Solution → Option Term → List Json
bound_constraint row none = []
bound_constraint row (some p) = left_constraint row (value_of (get "left" row))

-- The constraint that a row of the query has, if its permission is bound too.
abbrev pub row_constraint : Solution → List Json
row_constraint row = bound_constraint row (get "p" row)
