-- ===== src/Contreforts.antt =====
-- contreforts-connector/src/lib.rs: the configuration graph behind Contreforts' connector interface.
pub mod Laws
pub mod Offers
pub mod UnitTests
use ds_sql_dps_rs.Prelude.{
  String, Option, none, List, [], ◌∷◌, Result, ok, err, ◌>>=◌, map_err, ◌==◌, if◌then◌else◌,
}
use ds_sql_dps_rs.Oxigraph.{Oxigraph}
use ds_sql_dps_rs.ConfigGraph.Offer.{to_string_lossy}
use ds_sql_dps_rs.ConfigGraph.Json.{Json, string, obj, end, field}
use ds_sql_dps_rs.ConfigGraph.Store.{ConfigGraph, ConfigGraphError, display, file_path, media_type}
use ds_sql_dps_rs.ConfigGraph.Policy.{policy_jsonld}

abbrev pub data_offer_kind : String
data_offer_kind = "ds-sql-dps-rs:data-offer"

abbrev pub primary_offer_id : String
primary_offer_id = "primary"

abbrev pub source_name : String
source_name = "ds-sql-dps-rs"

-- The errors of `contreforts_core::ConnectorError` that the connector makes.
pub data ConnectorError : Type 0 where
  unsupported_kind : (connector kind : String) → ConnectorError
  unsupported : (connector operation : String) → ConnectorError
  api : String → ConnectorError

-- `contreforts_core::Document`; a kind is given by its text.
pub record Document : Type 0 where
  pub name : String
  pub remote_id : String
  pub kind : String
  pub source : String
  pub modified : Option String
  pub fields : Json

unfoldable pub require_data_offer_kind : String → Result ConnectorError (Unit {0})
require_data_offer_kind kind =
    if kind == data_offer_kind then ok tt else err (unsupported_kind source_name kind)

abbrev pub to_api_err : ConfigGraphError → ConnectorError
to_api_err e = api (display e)

module _ (O : Oxigraph) where
  unfoldable pub get : ConfigGraph O → String → String → Result ConnectorError Document
  unfolding require_data_offer_kind
  get graph kind remote_id = do
    supported ← require_data_offer_kind kind
    path ← map_err to_api_err (file_path O remote_id graph)
    media ← map_err to_api_err (media_type O remote_id graph)
    policy ← map_err to_api_err (policy_jsonld O remote_id graph)
    ok (record {
      name = remote_id;
      remote_id = remote_id;
      kind = kind;
      source = source_name;
      modified = none;
      fields = obj (
          field "filePath" (string (to_string_lossy path))
            (field "mediaType" (string media) (field "policy" policy end)));
    })

  -- `since` is not read.
  unfoldable pub pull :
      ConfigGraph O → String → Option String → Result ConnectorError (List Document)
  pull graph kind since = do
    supported ← require_data_offer_kind kind
    document ← get graph kind primary_offer_id
    ok (document ∷ [])

  unfoldable pub push : ConfigGraph O → Document → Result ConnectorError Document
  push graph doc = err (unsupported source_name "push")
