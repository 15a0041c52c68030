-- ===== src/ConfigGraph/Policy/Shape/Laws.antt =====
-- Every policy document is an ODRL offer, and says what the rows of its query say.
use ds_sql_dps_rs.Prelude.{
  String, Bool, true, ◌&&◌, ◌≡◌, refl, ap, sym, ◌∙◌, List, [], ◌∷◌, ◌++◌, arith, map, flat_map, ok,
  bind_ok, ok-injective, Option-cases, Bool-cases, eq_refl, inl, inr,
}
use mathlib.Core.List.{foldl, append_assoc, append-nil}
use ds_sql_dps_rs.Rdf.{Term, term_eq}
use ds_sql_dps_rs.Sparql.{Solution, get}
use ds_sql_dps_rs.Oxigraph.{Oxigraph}
use ds_sql_dps_rs.ConfigGraph.Json.{Json, items}
use ds_sql_dps_rs.ConfigGraph.Json.Access.{list_of}
use ds_sql_dps_rs.ConfigGraph.Store.{policy_iri, value_of, ConfigGraph, select}
use ds_sql_dps_rs.ConfigGraph.Policy.{
  header_query, rows_query, text_of, Entry, push_constraint, constraint_json, add_entry, add_row,
  permission_json, document, policy_jsonld, first_row,
}
use ds_sql_dps_rs.ConfigGraph.Policy.Shape.{
  all, is_constraint, is_permission, is_offer, constraints_of, constraints_in, left_constraint,
  row_constraint,
}

-- The constraints of all entries, one after the other.
abbrev entries_constraints : List (Term × Entry) → List Json
entries_constraints = flat_map (λ e. e.1.constraint)

push_constraint_lem :
    (row : Solution) (entry : Entry)
    → (push_constraint row entry).constraint
      ≡ entry.constraint ++ left_constraint row (value_of (get "left" row))
unfolding push_constraint
push_constraint_lem row entry = elim (Option-cases (value_of (get "left" row))) [
  | inl e ↦ rw (push_constraint, e, append-nil)
  | inr (left, e) ↦ rw (push_constraint, e)
]

-- A row adds its constraint at the end, whether it makes a new entry or not.
add_entry-constraints :
    (p : Term) (row : Solution) (es : List (Term × Entry))
    → entries_constraints (add_entry p row es)
      ≡ entries_constraints es ++ left_constraint row (value_of (get "left" row))
unfolding add_entry
add_entry-constraints p row [] = rw (
  append-nil,
  push_constraint_lem row (record { action = text_of "action" row; constraint = [] }),
)
add_entry-constraints p row ((q, e) ∷ []) = elim (Bool-cases (term_eq q p)) [
  | inl same ↦ rw (add_entry, same, append-nil, append-nil, push_constraint_lem row e)
  | inr other ↦ rw (
    add_entry,
    other,
    append-nil,
    append-nil,
    push_constraint_lem row (record { action = text_of "action" row; constraint = [] }),
  )
]
add_entry-constraints p row (e ∷ e' ∷ rest) =
    ap (λ l. e.1.constraint ++ l) (add_entry-constraints p row (e' ∷ rest))
    ∙ sym (append_assoc e.1.constraint _ _)

add_row-constraints :
    (es : List (Term × Entry)) (row : Solution)
    → entries_constraints (add_row es row) ≡ entries_constraints es ++ row_constraint row
unfolding add_row
add_row-constraints es row = elim (Option-cases (get "p" row)) [
  | inl e ↦ rw (add_row, e, append-nil)
  | inr (p, e) ↦ rw (add_row, e, add_entry-constraints p row es)
]

foldl-constraints :
    (es : List (Term × Entry)) (rows : List Solution)
    → entries_constraints (foldl add_row es rows)
      ≡ entries_constraints es ++ flat_map row_constraint rows
foldl-constraints es [] = sym (append-nil (entries_constraints es))
foldl-constraints es (row ∷ rows) =
    foldl-constraints (add_row es row) rows ∙ rw (add_row-constraints es row, append_assoc)

all-append {ℓ} :
    {A : Type ℓ} (test : A → Bool) (xs ys : List A)
    → all test (xs ++ ys) ≡ (all test xs && all test ys)
all-append test [] ys = refl
all-append test (x ∷ xs) ys = ground (arith, all-append test xs ys)

row_constraint-all : (row : Solution) → all is_constraint (row_constraint row) ≡ true
unfolding constraint_json
row_constraint-all row = elim (Option-cases (get "p" row)) [
  | inl e ↦ rw e
  | inr (p, e) ↦ elim (Option-cases (value_of (get "left" row))) [
    | inl e' ↦ rw (e, e')
    | inr (left, e') ↦ rw (e, e')
  ]
]

rows-all : (rows : List Solution) → all is_constraint (flat_map row_constraint rows) ≡ true
rows-all [] = refl
rows-all (row ∷ rows) = rw (
  all-append is_constraint (row_constraint row) (flat_map row_constraint rows),
  row_constraint-all row,
  rows-all rows,
)

-- What is read back from the object of an entry.
list_of-items : (xs : List Json) → list_of (items xs) ≡ xs
list_of-items [] = refl
list_of-items (x ∷ xs) = ap (λ l. x ∷ l) (list_of-items xs)

constraints_of-permission_json :
    (action : String) (cs : List Json)
    → constraints_of (permission_json (record { action = action; constraint = cs })) ≡ cs
unfolding permission_json
constraints_of-permission_json action [] = refl
constraints_of-permission_json action (c ∷ cs) = ap (λ l. c ∷ l) (list_of-items cs)

permission_json-is_permission :
    (action : String) (cs : List Json)
    → all is_constraint cs ≡ true
    → is_permission (permission_json (record { action = action; constraint = cs })) ≡ true
unfolding permission_json
permission_json-is_permission action [] h = refl
permission_json-is_permission action (c ∷ cs) h = rw (list_of-items cs) h

constraints_of-entries :
    (es : List (Term × Entry))
    → flat_map constraints_of (map (λ e. permission_json e.1) es) ≡ entries_constraints es
constraints_of-entries [] = refl
constraints_of-entries ((p, e) ∷ es) =
    rw (constraints_of-permission_json e.action e.constraint, constraints_of-entries es)

entries-all :
    (es : List (Term × Entry))
    → all is_constraint (entries_constraints es) ≡ true
    → all is_permission (map (λ e. permission_json e.1) es) ≡ true
entries-all [] h = refl
entries-all ((p, e) ∷ es) h =
    let split : (all is_constraint e.constraint && all is_constraint (entries_constraints es))
        ≡ true =
      sym (all-append is_constraint e.constraint (entries_constraints es)) ∙ h in
    let first : all is_constraint e.constraint ≡ true = ground (arith, split) in
    let rest : all is_constraint (entries_constraints es) ≡ true = ground (arith, split) in
    rw (permission_json-is_permission e.action e.constraint first, entries-all es rest)

abbrev document_of : String → String → String → List (Term × Entry) → Json
document_of id target assigner es = document id target assigner (map (λ e. permission_json e.1) es)

document-is_offer :
    (id target assigner : String) (es : List (Term × Entry))
    → all is_constraint (entries_constraints es) ≡ true
    → is_offer id (document_of id target assigner es) ≡ true
unfolding document
document-is_offer id target assigner es h =
    rw (document, list_of-items (map (λ e. permission_json e.1) es), entries-all es h, eq_refl id)

document-constraints :
    (id target assigner : String) (es : List (Term × Entry))
    → constraints_in (document_of id target assigner es) ≡ entries_constraints es
unfolding document
document-constraints id target assigner es =
    ap (flat_map constraints_of) (list_of-items (map (λ e. permission_json e.1) es))
    ∙ constraints_of-entries es

module _ (O : Oxigraph) where
  -- On any store: a document that policy_jsonld returns is an ODRL offer under the dataset's policy
  -- IRI, whose target and assigner are strings, and whose permissions each have an action and either
  -- no member for constraints or an array with one constraint at least, each of three strings. The
  -- constraints of its permissions, one after the other, are those of the rows of the query, in the
  -- order of the rows: none is lost, added or moved.
  pub policy_jsonld-is_offer :
      (id : String) (w : ConfigGraph O) (doc : Json)
      → policy_jsonld O id w ≡ ok doc
      → (is_offer (policy_iri id) doc ≡ true)
        × (rows : List Solution) × (select O (rows_query (policy_iri id)) w ≡ ok rows)
        × (constraints_in doc ≡ flat_map row_constraint rows)
  unfolding policy_jsonld
  policy_jsonld-is_offer id w doc e =
      let (header, e1, h1) = bind_ok (select O (header_query (policy_iri id)) w) e in
      let (first, e2, h2) = bind_ok (first_row id header) h1 in
      let (rows, e3, h3) = bind_ok (select O (rows_query (policy_iri id)) w) h2 in
      let es = foldl add_row [] rows in
      let same : entries_constraints es ≡ flat_map row_constraint rows =
        foldl-constraints [] rows in
      let target = text_of "target" first in
      let assigner = text_of "assigner" first in
      let made : document_of (policy_iri id) target assigner es ≡ doc = ok-injective h3 in
      (
        ap (is_offer (policy_iri id)) (sym made)
            ∙ document-is_offer (policy_iri id) target assigner es (rw same (rows-all rows)),
        rows,
        e3,
        ap constraints_in (sym made)
            ∙ (document-constraints (policy_iri id) target assigner es ∙ same),
      )
