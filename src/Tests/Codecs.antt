-- ===== src/Tests/Codecs.antt =====
-- The configuration and the registration, written out and read back.
use ds_sql_dps_rs.Prelude.{String, true, ◌≡◌, ◌⊎◌, ◌↔◌, some, [], ◌∷◌, arith}
use ds_sql_dps_rs.ConfigGraph.Json.{string}
use ds_sql_dps_rs.ConfigGraph.Offer.{unicode}
use ds_sql_dps_rs.Dataplane.Config.{Config, is_on, from_env}
use ds_sql_dps_rs.Dataplane.Config.RoundTrip.{
  environment_of, from_env-environment_of, folded, is_on-folded,
}
use ds_sql_dps_rs.Dataplane.Registration.{DataPlaneRegistration, registration_json}
use ds_sql_dps_rs.Dataplane.Registration.RoundTrip.{
  read_registration, read_registration-registration_json,
}
use ds_sql_dps_rs.Tests.Startup.{from_environment}

abbrev unlike_defaults : Config
unlike_defaults = record from_environment {
  dataset_id = "sales";
  signaling_port = 40001;
  policy_not_after = some "2099-01-01T00:00:00Z";
  tck_mode = true;
}

from_env-environment_of_example :
    from_env (environment_of "data/sales.csv" unlike_defaults)
    ≡ some (record unlike_defaults { file_path = unicode "data/sales.csv" })
from_env-environment_of_example =
    from_env-environment_of "data/sales.csv" unlike_defaults (omega arith) (omega arith)

is_on-folded_example :
    (is_on (some "tRuE") ≡ true) ↔ (Path String "tRuE" "1" ⊎ (folded "tRuE" ≡ folded "true"))
is_on-folded_example = is_on-folded "tRuE"

abbrev labelled : DataPlaneRegistration
labelled = record {
  dataplane_id = "dp";
  endpoint = "http://localhost:9191";
  transfer_types = "HttpData-PULL" ∷ [];
  labels = some ("a" ∷ "b" ∷ []);
  authorization = some (string "token");
}

read_registration-registration_json_example :
    read_registration (registration_json labelled) ≡ some labelled
read_registration-registration_json_example = read_registration-registration_json labelled
