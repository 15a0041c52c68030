-- ===== src/Contreforts/UnitTests.antt =====
-- The unit test of contreforts-connector/src/lib.rs, over any store.
use ds_sql_dps_rs.Prelude.{
  String, ◌≡◌, none, Result, ok, err, ◌>>=◌, ◌==◌, expect, expect_err, assert,
}
use ds_sql_dps_rs.Oxigraph.{Oxigraph, IsInMemory}
use ds_sql_dps_rs.ConfigGraph.Store.{open_in_memory}
use ds_sql_dps_rs.Contreforts.{
  ConnectorError, unsupported_kind, unsupported, api, pull, require_data_offer_kind,
}

-- The `match` at the end.
abbrev names_kind_and_connector : ConnectorError → Result String (Unit {0})
names_kind_and_connector (unsupported_kind connector kind) = do
  named ← assert "connector" (connector == "ds-sql-dps-rs")
  assert "kind" (kind == "customer")
names_kind_and_connector (unsupported connector operation) = err "expected UnsupportedKind"
names_kind_and_connector (api e) = err "expected UnsupportedKind"

module _ (O : Oxigraph) where
  unfoldable unsupported_kind_errors_naming_kind_and_connector : Result String (Unit {0})
  unsupported_kind_errors_naming_kind_and_connector = do
    graph ← expect "open store" (open_in_memory O)
    error ←
        expect_err "a kind this connector does not handle must error" (pull O graph "customer" none)
    names_kind_and_connector error

  -- The test passes wherever a store can be opened.
  unit_test-passes : IsInMemory O → unsupported_kind_errors_naming_kind_and_connector ≡ ok tt
  unfolding unsupported_kind_errors_naming_kind_and_connector open_in_memory pull
      require_data_offer_kind
  unit_test-passes M = let (s, new, holds) = M.new_lem in rw (new, pull, require_data_offer_kind)
