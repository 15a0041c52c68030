-- ===== src/Tests/UnitTests.antt =====
-- The repository's unit tests on the concrete store.
use ds_sql_dps_rs.Prelude.{◌≡◌, refl, ok}
use ds_sql_dps_rs.ConfigGraph.Seed.Quads.{IsDatasetId}
use ds_sql_dps_rs.ConfigGraph.UnitTests.{
  policy_jsonld_preserves_permission_and_constraint_order,
  policy_jsonld_omits_constraint_array_when_permission_has_none,
}
use ds_sql_dps_rs.ConfigGraph.UnitTests.Laws.{unit_tests-pass}
use ds_sql_dps_rs.Tests.Memory.{memory, memory-IsInMemory}
use ds_sql_dps_rs.Tests.ConfigGraph.{vocabulary}

multi_id : IsDatasetId memory "multi"
unfolding ds_sql_dps_rs.ConfigGraph.Store.dataset_iri ds_sql_dps_rs.Sparql.Text.is_iri_char
    ds_sql_dps_rs.ConfigGraph.Store.distribution_iri ds_sql_dps_rs.ConfigGraph.Store.policy_iri
multi_id = record { dataset = refl; distribution = refl; policy = refl }

unconstrained_id : IsDatasetId memory "no-constraints"
unfolding ds_sql_dps_rs.ConfigGraph.Store.dataset_iri ds_sql_dps_rs.Sparql.Text.is_iri_char
    ds_sql_dps_rs.ConfigGraph.Store.distribution_iri ds_sql_dps_rs.ConfigGraph.Store.policy_iri
unconstrained_id = record { dataset = refl; distribution = refl; policy = refl }

unit_tests-pass_example :
    (policy_jsonld_preserves_permission_and_constraint_order memory ≡ ok tt)
    × (policy_jsonld_omits_constraint_array_when_permission_has_none memory ≡ ok tt)
unit_tests-pass_example =
    unit_tests-pass memory memory-IsInMemory vocabulary multi_id unconstrained_id
