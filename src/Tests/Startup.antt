-- ===== src/Tests/Startup.antt =====
-- The start of the process on the concrete store, and the connector on the graph it seeds.
use ds_sql_dps_rs.Prelude.{
  String, ℕ, false, ◌<>◌, ◌↔◌, ◌≤◌, ◌<◌, ◌^◌, ◌≡◌, refl, ok, err, Option, none, some, List, [], ◌∷◌,
  Result, ◌>>=◌, ◌==◌, if◌then◌else◌, arith,
}
use ds_sql_dps_rs.ConfigGraph.Offer.{unicode, FileOffer}
use ds_sql_dps_rs.ConfigGraph.Store.{ConfigGraph}
use ds_sql_dps_rs.ConfigGraph.Seed.{seed_offer}
use ds_sql_dps_rs.ConfigGraph.Seed.Quads.{IsDatasetId}
use ds_sql_dps_rs.ConfigGraph.RoundTrip.{History, opened, seeded, ReadsBack}
use ds_sql_dps_rs.ConfigGraph.RoundTrip.Laws.{History-ReadsBack}
use ds_sql_dps_rs.Contreforts.{data_offer_kind, require_data_offer_kind, pull}
use ds_sql_dps_rs.Contreforts.Laws.{offer_as_document, get-ReadsBack}
use ds_sql_dps_rs.Dataplane.Tokens
use ds_sql_dps_rs.Dataplane.Config.{Config, Environment, env_or, from_env, file_offer}
use ds_sql_dps_rs.Dataplane.Config.Laws.{IsPort, from_env-ports}
use ds_sql_dps_rs.Dataplane.Registration.{
  DataPlaneRegistration, HttpResponse, Put, registration_url, registration_json,
  register_with_control_plane,
}
use ds_sql_dps_rs.Dataplane.Registration.Laws.{
  slashes, ends_with_slash, registration_url-slash, register_ok,
}
use ds_sql_dps_rs.Dataplane.Build.{Startup, App, build}
use ds_sql_dps_rs.Dataplane.Build.Laws.{IsReady, build-total}
use ds_sql_dps_rs.Tests.Memory.{memory, memory-IsInMemory}
use ds_sql_dps_rs.Tests.ConfigGraph.{vocabulary, empty_graph, opened_empty}

abbrev pub environment : Environment
environment key = if key == "PUBLIC_PORT" then some "8080" else none

abbrev pub from_environment : Config
from_environment = record {
  dataset_id = "primary";
  file_path = unicode "sample-data/sample.csv";
  media_type = "text/csv";
  assigner = "ds-sql-dps-rs";
  policy_not_after = none;
  signaling_port = 9191;
  public_port = 8080;
  public_base_url = "http://localhost:8080";
  participant_context_id = "ds-sql-dps-rs";
  dataplane_id = "ds-sql-dps-rs-dataplane";
  control_plane_url = none;
  tck_mode = false;
}

pub read_environment : from_env environment ≡ some from_environment
unfolding from_env ds_sql_dps_rs.Prelude.Decimal.integer_value
    ds_sql_dps_rs.Prelude.Decimal.to_string
read_environment = refl

from_env-ports_example :
    ((c : Config) × (from_env environment ≡ some c)
      × (c.public_port ≡ 8080)
      × (c.signaling_port ≡ 9191))
    ↔ (IsPort (env_or environment "PUBLIC_PORT" "9192") 8080
        × IsPort (env_or environment "SIGNALING_PORT" "9191") 9191)
from_env-ports_example = from_env-ports environment 8080 9191

registration_url-slash_example :
    (registration_url ("http://cp:8080" <> "/") "p" ≡ registration_url "http://cp:8080" "p")
    × (stem : String) × (n : ℕ) × ("http://cp:8080" ≡ stem <> slashes n)
    × (ends_with_slash stem ≡ false)
    × (registration_url "http://cp:8080" "p"
        ≡ stem <> ("/v5beta/participants/" <> ("p" <> "/dataplanes")))
registration_url-slash_example = registration_url-slash "http://cp:8080" "p"

abbrev registration : DataPlaneRegistration
registration = record {
  dataplane_id = "dp";
  endpoint = "http://localhost:9191";
  transfer_types = "HttpData-PULL" ∷ [];
  labels = none;
  authorization = none;
}

abbrev accept : Put
accept url body = ok (record { status = 204; text = ok "" })

accepted : register_with_control_plane accept "http://cp:8080" "p" registration ≡ ok tt
unfolding register_with_control_plane
accepted = refl

register_ok_example :
    (register_with_control_plane accept "http://cp:8080" "p" registration ≡ ok tt) ↔ (
      (response : HttpResponse) × (accept
          (registration_url "http://cp:8080" "p")
          (registration_json registration)
        ≡ ok response)
      × (200 ≤ response.status)
      × (response.status < 300))
register_ok_example = register_ok accept "http://cp:8080" "p" registration

-- The control plane is out of reach.
abbrev pub startup : Startup
startup = record {
  bind = λ n addr. ok (record { local_port = ok 40001 });
  create_control_plane = ok tt;
  build_sdk = ok tt;
  put = λ url body. err "connection refused";
}

abbrev pub config : Config
config = record from_environment { control_plane_url = some "http://cp:8080" }

pub primary : IsDatasetId memory "primary"
unfolding ds_sql_dps_rs.ConfigGraph.Store.dataset_iri ds_sql_dps_rs.Sparql.Text.is_iri_char
    ds_sql_dps_rs.ConfigGraph.Store.distribution_iri ds_sql_dps_rs.ConfigGraph.Store.policy_iri
primary = record { dataset = refl; distribution = refl; policy = refl }

abbrev pub ready : (c : Config) → IsReady startup c
ready c = record {
  public_listener = record { local_port = ok 40001 };
  public_bound = refl;
  public_port = 40001;
  public_port_known = refl;
  signaling_listener = record { local_port = ok 40001 };
  signaling_bound = refl;
  signaling_port = 40001;
  signaling_port_known = refl;
  created = refl;
  sdk = refl;
}

build-total_example :
    (app : App memory) × (build memory startup config ≡ ok app)
    × History memory memory-IsInMemory vocabulary app.world.graph (file_offer config ∷ [])
    × (app.world.tokens ≡ Tokens.default)
    × (app.handler.default_offer ≡ file_offer config)
    × (app.handler.tck_mode ≡ config.tck_mode)
build-total_example =
    build-total memory memory-IsInMemory vocabulary startup config primary (ready config)

-- The graph of the primary offer.
abbrev primary_offer : FileOffer
primary_offer = record {
  dataset_id = "primary";
  title = "Primary";
  file_path = unicode "data/primary.csv";
  media_type = "text/csv";
  assigner = "ds-sql-dps-rs";
  permissions = record { action = "use"; constraints = [] } ∷ [];
}

abbrev primary_graph : ConfigGraph memory
primary_graph = (seed_offer memory primary_offer empty_graph).1

seeded_primary : seed_offer memory primary_offer empty_graph ≡ (ok tt, primary_graph)
unfolding seed_offer ds_sql_dps_rs.ConfigGraph.Seed.offer_quads
    ds_sql_dps_rs.ConfigGraph.Seed.insert_quads ds_sql_dps_rs.ConfigGraph.Store.dataset_iri
    ds_sql_dps_rs.Sparql.Text.is_iri_char ds_sql_dps_rs.ConfigGraph.Store.distribution_iri
    ds_sql_dps_rs.ConfigGraph.Store.policy_iri
seeded_primary = refl

primary-ReadsBack : ReadsBack memory memory-IsInMemory vocabulary primary_graph primary_offer
primary-ReadsBack =
    (History-ReadsBack memory memory-IsInMemory vocabulary
      (seeded primary_offer (opened opened_empty) primary tt seeded_primary)).0

pulled : pull memory primary_graph data_offer_kind none ≡ ok (offer_as_document primary_offer ∷ [])
unfolding pull require_data_offer_kind
pulled = rw (
  pull,
  get-ReadsBack memory memory-IsInMemory vocabulary primary_graph primary_offer primary-ReadsBack,
)
