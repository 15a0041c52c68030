-- ===== src/Tests/Queries.antt =====
-- The texts of the queries on concrete ids, and an id that changes its query.
use ds_sql_dps_rs.Prelude.{String, ◌≡◌, refl, [], ◌∷◌, ok, some}
use ds_sql_dps_rs.Sparql.Grammar.{parse}
use ds_sql_dps_rs.ConfigGraph.Vocab.{dcat_ns, ds_ns, odrl_ns, dcat, ds}
use ds_sql_dps_rs.ConfigGraph.Offer.{unicode}
use ds_sql_dps_rs.ConfigGraph.Store.{file_path_query, media_type_query, distribution_iri, file_path}
use ds_sql_dps_rs.ConfigGraph.Policy.{header_query, rows_query}
use ds_sql_dps_rs.ConfigGraph.Queries.{
  Means, value_syntax, header_syntax, rows_syntax, queries-Means,
}
use ds_sql_dps_rs.Dataplane.Handler.{DataFlow, admit}
use ds_sql_dps_rs.Dataplane.Handler.Admission.{admit-known}
use ds_sql_dps_rs.Tests.Dataplane.{handler}
use ds_sql_dps_rs.Tests.Memory.{memory}
use ds_sql_dps_rs.Tests.ConfigGraph.{sales_graph}

queries-Means_example :
    Means
      (file_path_query "urn:x")
      (value_syntax "urn:x" (ds "filePath") "path")
      (ds_ns ∷ "urn:x" ∷ [])
    × Means
        (media_type_query "urn:x")
        (value_syntax "urn:x" (dcat "mediaType") "media")
        (dcat_ns ∷ "urn:x" ∷ [])
    × Means (header_query "urn:x") (header_syntax "urn:x") (odrl_ns ∷ "urn:x" ∷ [])
    × Means (rows_query "urn:x") (rows_syntax "urn:x") (odrl_ns ∷ ds_ns ∷ "urn:x" ∷ [])
unfolding ds_sql_dps_rs.Sparql.Text.is_iri_char
queries-Means_example = queries-Means "urn:x" refl

-- A dataset id that ends the IRI, completes the query and starts a comment.
abbrev forged_id : String
forged_id = "sales#distribution> ds:filePath ?path } #"

forged_query :
    Means
      (file_path_query (distribution_iri forged_id))
      (value_syntax "urn:ds-sql-dps-rs:dataset:sales#distribution" (ds "filePath") "path")
      (ds_ns ∷ "urn:ds-sql-dps-rs:dataset:sales#distribution" ∷ [])
unfolding parse file_path_query distribution_iri ds_sql_dps_rs.ConfigGraph.Store.dataset_iri
forged_query = refl

-- Nothing was seeded under this id; it is found by the file path of another.
forged_found : file_path memory forged_id sales_graph ≡ ok (unicode "data/sample.csv")
unfolding file_path parse file_path_query distribution_iri
    ds_sql_dps_rs.ConfigGraph.Store.dataset_iri ds_sql_dps_rs.Tests.Memory.sort
    ds_sql_dps_rs.Sparql.solutions ds_sql_dps_rs.ConfigGraph.Seed.seed_offer
    ds_sql_dps_rs.ConfigGraph.Seed.offer_quads ds_sql_dps_rs.ConfigGraph.Store.policy_iri
    ds_sql_dps_rs.ConfigGraph.Seed.insert_quads ds_sql_dps_rs.Oxigraph.add ds_sql_dps_rs.Rdf.quad_eq
    ds_sql_dps_rs.Prelude.Decimal.to_string ds_sql_dps_rs.Sparql.project
    ds_sql_dps_rs.ConfigGraph.Offer.to_string_lossy
forged_found = refl

abbrev forged_flow : DataFlow
forged_flow = record { id = "x"; dataset_id = forged_id }

-- Outside TCK mode, a start of a flow for it is admitted.
forged_admitted : admit memory handler forged_flow sales_graph ≡ (ok tt, sales_graph)
forged_admitted =
    admit-known memory handler forged_flow sales_graph (unicode "data/sample.csv") forged_found
