-- ===== src/ConfigGraph/Store.antt =====
-- config-graph/src/store.rs: the errors, the IRIs of an offer, the state, `select` and the two reads
-- of one value. `seed_offer` is in `ConfigGraph/Seed.antt`, `policy_jsonld` in `Policy.antt`.
use ds_sql_dps_rs.Prelude.{
  String, ◌<>◌, ℕ, Option, none, some, List, [], ◌∷◌, Result, ok, err, ◌>>=◌, map_err,
  if◌then◌else◌,
}
use ds_sql_dps_rs.Rdf.{Term, named_node, blank_node, simple_literal, typed_literal}
use ds_sql_dps_rs.Sparql.{Solution, get}
use ds_sql_dps_rs.Oxigraph.{
  Oxigraph, QueryResults, solutions_of, boolean, triples, QueryFailure, syntax, evaluation,
}
use ds_sql_dps_rs.ConfigGraph.Vocab.{dcat_ns, ds_ns}
use ds_sql_dps_rs.ConfigGraph.Offer.{PathBuf, unicode}

-- The sources of the first four are given by their messages.
pub data ConfigGraphError : Type 0 where
  invalid_iri : String → ConfigGraphError
  storage : String → ConfigGraphError
  query_failed : String → ConfigGraphError
  query_syntax : String → ConfigGraphError
  not_found : String → ConfigGraphError

-- `Display`, from the `#[error(…)]` attributes.
unfoldable pub display : ConfigGraphError → String
display (invalid_iri e) = "invalid IRI: " <> e
display (storage e) = "store error: " <> e
display (query_failed e) = "SPARQL query failed: " <> e
display (query_syntax e) = "SPARQL query failed to parse: " <> e
display (not_found id) = "no offer found for dataset id '" <> (id <> "'")

unfoldable pub dataset_iri : String → String
dataset_iri dataset_id = "urn:ds-sql-dps-rs:dataset:" <> dataset_id

unfoldable pub distribution_iri : String → String
distribution_iri dataset_id = dataset_iri dataset_id <> "#distribution"

unfoldable pub policy_iri : String → String
policy_iri dataset_id = dataset_iri dataset_id <> "#policy"

unfoldable pub literal_value : Term → Option String
literal_value (simple_literal value) = some value
literal_value (typed_literal value datatype) = some value
literal_value (named_node i) = some i
literal_value (blank_node b) = none

-- `.and_then(literal_value)`
unfoldable pub value_of : Option Term → Option String
unfolding literal_value
value_of none = none
value_of (some t) = literal_value t

-- The texts that `file_path` and `media_type` put the distribution into.
unfoldable pub file_path_query : String → String
file_path_query distribution =
    ("PREFIX ds: <" <> (ds_ns <> ">\n               SELECT ?path WHERE { <"))
    <> (distribution <> "> ds:filePath ?path }")

unfoldable pub media_type_query : String → String
media_type_query distribution =
    ("PREFIX dcat: <" <> (dcat_ns <> ">\n               SELECT ?media WHERE { <"))
    <> (distribution <> "> dcat:mediaType ?media }")

module _ (O : Oxigraph) where
  -- The store, and how many blank nodes the process has made.
  pub record ConfigGraph : Type 0 where
    pub store : O.Store
    pub blanks : ℕ

  unfoldable pub open_in_memory : Result ConfigGraphError ConfigGraph
  open_in_memory = do store ← map_err storage O.new; ok (record { store = store; blanks = 0 })

  -- `NamedNode::new`
  unfoldable pub new_named_node : String → Result ConfigGraphError String
  new_named_node s = if O.is_iri s then ok s else err (invalid_iri (O.iri_error s))

  unfoldable pub collect : List (Result String Solution) → Result ConfigGraphError (List Solution)
  collect [] = ok []
  collect (solution ∷ rest) = do s ← map_err query_failed solution; out ← collect rest; ok (s ∷ out)

  abbrev query_error : QueryFailure → ConfigGraphError
  query_error (syntax e) = query_syntax e
  query_error (evaluation e) = query_failed e

  abbrev select_results : QueryResults → Result ConfigGraphError (List Solution)
  select_results (solutions_of rows) = collect rows
  select_results (boolean b) = ok []
  select_results triples = ok []

  unfoldable pub select : String → ConfigGraph → Result ConfigGraphError (List Solution)
  unfolding collect
  select query w = do
    results ← map_err query_error (O.execute w.store query)
    select_results results

  -- `.first().and_then(|s| s.get(v)).and_then(literal_value).ok_or_else(NotFound)`
  unfoldable pub first_value : String → String → List Solution → Result ConfigGraphError String
  unfolding get value_of
  first_value dataset_id v [] = err (not_found dataset_id)
  first_value dataset_id v (s ∷ rest) = elim (value_of (get v s)) [
    | none ↦ err (not_found dataset_id)
    | some value ↦ ok value
  ]

  unfoldable pub file_path : String → ConfigGraph → Result ConfigGraphError PathBuf
  unfolding select first_value
  file_path dataset_id w = do
    solutions ← select (file_path_query (distribution_iri dataset_id)) w
    path ← first_value dataset_id "path" solutions
    ok (unicode path)

  unfoldable pub media_type : String → ConfigGraph → Result ConfigGraphError String
  unfolding select first_value
  media_type dataset_id w = do
    solutions ← select (media_type_query (distribution_iri dataset_id)) w
    first_value dataset_id "media" solutions
