-- ===== src/Tests/Race.antt =====
-- Two starts of one unknown dataset at the same time, in TCK mode, on the concrete store.
use ds_sql_dps_rs.Prelude.{ℕ, zero, suc, ◌≡◌, refl, List, [], ◌∷◌, ◌++◌, Result, ok, err}
use ds_sql_dps_rs.Prelude.Decimal.{to_string}
use ds_sql_dps_rs.ConfigGraph.Json.{
  Json, null, string, arr, obj, Items, nil, cons, Fields, end, field,
}
use ds_sql_dps_rs.ConfigGraph.Store.{ConfigGraphError}
use ds_sql_dps_rs.ConfigGraph.Policy.{policy_jsonld}
use ds_sql_dps_rs.Dataplane.Handler.{World}
use ds_sql_dps_rs.Dataplane.Concurrent.{start_asked, interleave}
use ds_sql_dps_rs.Tests.Memory.{memory}
use ds_sql_dps_rs.Tests.Dataplane.{engine, tck_handler, stock_flow, sales_world}

abbrev item_count : Items → ℕ
item_count nil = 0
item_count (cons x xs) = suc (item_count xs)

abbrev member_count : Json → ℕ
member_count null = 0
member_count (string s) = 0
member_count (obj fs) = 0
member_count (arr xs) = item_count xs

abbrev last_field : Fields → ℕ
last_field end = 0
last_field (field name x rest) = elim rest [
  | end ↦ member_count x
  | field other y more ↦ last_field rest
]

-- The number of permissions of a policy document.
abbrev permission_count : Result ConfigGraphError Json → ℕ
permission_count (err e) = 0
permission_count (ok null) = 0
permission_count (ok (string s)) = 0
permission_count (ok (arr xs)) = 0
permission_count (ok (obj fs)) = last_field fs

abbrev repeat : ℕ → ℕ → List ℕ
repeat zero x = []
repeat (suc n) x = x ∷ repeat n x

-- Both tasks look for the dataset, then each seeds it.
abbrev race : List ℕ
race = 0 ∷ 1 ∷ (repeat 45 0 ++ repeat 45 1)

abbrev raced : World memory
raced =
    (interleave memory engine to_string tck_handler race
      (start_asked stock_flow ∷ start_asked stock_flow ∷ []) sales_world).1

-- The offer has two permissions, the first with two constraints; the graph now has six.
race_splits : permission_count (policy_jsonld memory "stock" raced.graph) ≡ 6
unfolding policy_jsonld interleave ds_sql_dps_rs.Tests.Memory.sort ds_sql_dps_rs.Sparql.solutions
    ds_sql_dps_rs.ConfigGraph.Store.file_path ds_sql_dps_rs.ConfigGraph.Seed.seed_offer
    ds_sql_dps_rs.ConfigGraph.Seed.offer_quads ds_sql_dps_rs.ConfigGraph.Seed.insert_quads
    ds_sql_dps_rs.Oxigraph.add ds_sql_dps_rs.Rdf.quad_eq to_string
    ds_sql_dps_rs.ConfigGraph.Store.distribution_iri ds_sql_dps_rs.ConfigGraph.Store.dataset_iri
    ds_sql_dps_rs.ConfigGraph.Offer.to_string_lossy ds_sql_dps_rs.ConfigGraph.Store.policy_iri
    ds_sql_dps_rs.Sparql.key_lt ds_sql_dps_rs.Sparql.sort_key ds_sql_dps_rs.Sparql.project
    ds_sql_dps_rs.Sparql.Grammar.parse ds_sql_dps_rs.ConfigGraph.Policy.header_query
    ds_sql_dps_rs.ConfigGraph.Store.file_path_query ds_sql_dps_rs.ConfigGraph.Policy.rows_query
    ds_sql_dps_rs.Sparql.Text.is_iri_char
race_splits = refl
