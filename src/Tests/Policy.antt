-- ===== src/Tests/Policy.antt =====
-- The form of a policy document on the concrete store.
use ds_sql_dps_rs.Prelude.{◌≡◌, true, List, ok, flat_map}
use ds_sql_dps_rs.Sparql.{Solution}
use ds_sql_dps_rs.ConfigGraph.Store.{policy_iri, select}
use ds_sql_dps_rs.ConfigGraph.Policy.{rows_query}
use ds_sql_dps_rs.ConfigGraph.Policy.Shape.{is_offer, constraints_in, row_constraint}
use ds_sql_dps_rs.ConfigGraph.Policy.Shape.Laws.{policy_jsonld-is_offer}
use ds_sql_dps_rs.ConfigGraph.ReadBack.{offer_document}
use ds_sql_dps_rs.Tests.Memory.{memory}
use ds_sql_dps_rs.Tests.ConfigGraph.{sales, both_graph}
use ds_sql_dps_rs.Tests.Dataplane.{sales-ReadsBack}

-- The sales offer has two permissions, the first with two constraints.
policy_jsonld-is_offer_example :
    (is_offer (policy_iri "sales") (offer_document sales) ≡ true)
    × (rows : List Solution) × (select memory (rows_query (policy_iri "sales")) both_graph
        ≡ ok rows)
    × (constraints_in (offer_document sales) ≡ flat_map row_constraint rows)
policy_jsonld-is_offer_example =
    policy_jsonld-is_offer memory "sales" both_graph (offer_document sales) sales-ReadsBack.policy
