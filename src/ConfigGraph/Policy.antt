-- ===== src/ConfigGraph/Policy.antt =====
-- config-graph/src/store.rs: `policy_jsonld`, which reads the policy of a dataset back as JSON-LD.
pub mod Rows
pub mod Sorted
pub mod Grouping
pub mod Shape
use ds_sql_dps_rs.Prelude.{
  String, ◌<>◌, Option, none, some, List, [], ◌∷◌, ◌++◌, map, Result, ok, err, ◌>>=◌, if◌then◌else◌,
}
use mathlib.Core.List.{foldl}
use mathlib.Core.Option.{get_or}
use ds_sql_dps_rs.Rdf.{Term, term_eq}
use ds_sql_dps_rs.Sparql.{Solution, get}
use ds_sql_dps_rs.Oxigraph.{Oxigraph}
use ds_sql_dps_rs.ConfigGraph.Vocab.{ds_ns, odrl_ns}
use ds_sql_dps_rs.ConfigGraph.Json.{Json, string, arr, obj, end, field, items}
use ds_sql_dps_rs.ConfigGraph.Store.{
  ConfigGraphError, not_found, policy_iri, value_of, ConfigGraph, select,
}

unfoldable pub header_query : String → String
header_query policy =
    ("PREFIX odrl: <"
      <> (odrl_ns <> ">\n               SELECT ?target ?assigner WHERE {\n                   <"))
    <> (policy <> "> odrl:target ?target ; odrl:assigner ?assigner .\n               }")

unfoldable pub rows_query : String → String
rows_query policy =
    ("PREFIX odrl: <"
      <> (odrl_ns
          <> (">\n               PREFIX ds: <"
              <> (ds_ns
                  <> (">\n               SELECT ?p ?porder ?action ?corder ?left ?op ?right WHERE {"
                      <> "\n                   <")))))
    <> (policy
        <> ("> odrl:permission ?p ."
            <> ("\n                   ?p ds:order ?porder ; odrl:action ?action ."
                <> ("\n                   OPTIONAL {"
                    <> ("\n                       ?p odrl:constraint ?c ."
                        <> ("\n                       ?c ds:order ?corder ; odrl:leftOperand ?left ;"
                            <> (" odrl:operator ?op ; odrl:rightOperand ?right ."
                                <> "\n                   }\n               } ORDER BY ?porder ?corder")))))))

-- `.and_then(literal_value).unwrap_or_default()`
abbrev pub text_of : String → Solution → String
text_of v row = get_or (value_of (get v row)) ""

-- The object `{ "action": …, "constraint": […] }` of a permission while it is built.
pub record Entry : Type 0 where
  pub action : String
  pub constraint : List Json

unfoldable pub constraint_json : String → String → String → Json
constraint_json left op right = obj (
    field "leftOperand" (string left)
      (field "operator" (string op) (field "rightOperand" (string right) end)))

-- The body of `if let Some(left) = …`: pushes the constraint of the row, if it has one.
unfoldable pub push_constraint : Solution → Entry → Entry
unfolding get value_of constraint_json
push_constraint row entry = elim (value_of (get "left" row)) [
  | none ↦ entry
  | some left ↦ record entry {
    constraint =
        entry.constraint ++ (constraint_json left (text_of "op" row) (text_of "right" row) ∷ []);
  }
]

-- `permissions.last_mut()`: the row goes to the last entry if that is of the same node, else to a
-- new entry behind it.
unfoldable pub add_entry : Term → Solution → List (Term × Entry) → List (Term × Entry)
unfolding push_constraint term_eq
add_entry p row [] =
    (p, push_constraint row (record { action = text_of "action" row; constraint = [] })) ∷ []
add_entry p row ((last_p, value) ∷ []) =
    if term_eq last_p p
    then (last_p, push_constraint row value) ∷ []
    else (last_p, value)
      ∷ (p, push_constraint row (record { action = text_of "action" row; constraint = [] }))
      ∷ []
add_entry p row (e ∷ e' ∷ rest) = e ∷ add_entry p row (e' ∷ rest)

-- One round of the loop over the rows.
unfoldable pub add_row : List (Term × Entry) → Solution → List (Term × Entry)
unfolding get add_entry
add_row permissions row = elim (get "p" row) [
  | none ↦ permissions
  | some p ↦ add_entry p row permissions
]

-- An empty constraint array is left out.
unfoldable pub permission_json : Entry → Json
permission_json entry = elim entry.constraint [
  | [] ↦ obj (field "action" (string entry.action) end)
  | c ∷ cs ↦
      obj (field "action" (string entry.action) (field "constraint" (arr (items (c ∷ cs))) end))
]

unfoldable pub document : String → String → String → List Json → Json
document policy target assigner permissions = obj (
    field "@context" (string "http://www.w3.org/ns/odrl.jsonld") (
      field "@id" (string policy) (
        field "@type" (string "Offer") (
          field "target" (string target) (
            field "assigner" (string assigner)
              (field "permission" (arr (items permissions)) end))))))

-- `header.first().ok_or_else(NotFound)`
abbrev pub first_row : String → List Solution → Result ConfigGraphError Solution
first_row id [] = err (not_found id)
first_row id (s ∷ rest) = ok s

module _ (O : Oxigraph) where
  unfoldable pub policy_jsonld : String → ConfigGraph O → Result ConfigGraphError Json
  unfolding select get value_of add_row permission_json document
  policy_jsonld dataset_id w = do
    let policy = policy_iri dataset_id
    header ← select O (header_query policy) w
    first ← first_row dataset_id header
    rows ← select O (rows_query policy) w
    let permissions = foldl add_row [] rows
    ok (
        document policy (text_of "target" first) (text_of "assigner" first)
          (map (λ e. permission_json e.1) permissions))
