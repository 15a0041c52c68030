-- ===== src/Dataplane/Build.antt =====
-- dataplane/src/lib.rs: `build`, which assembles the application. Sockets, the signaling SDK with
-- its repositories and the HTTP client are parameters.
pub mod Laws
use ds_sql_dps_rs.Prelude.{
  String, ◌<>◌, ℕ, Option, none, some, List, [], ◌∷◌, ◌++◌, Result, ok, err, ◌>>=◌, map_err, nat_eq,
  if◌then◌else◌,
}
use ds_sql_dps_rs.Prelude.Decimal.{to_string}
use ds_sql_dps_rs.Oxigraph.{Oxigraph}
use ds_sql_dps_rs.ConfigGraph.Store.{ConfigGraph, display, open_in_memory}
use ds_sql_dps_rs.ConfigGraph.Seed.{seed_offer}
use ds_sql_dps_rs.Contreforts
use ds_sql_dps_rs.Contreforts.{ConnectorError, Document, data_offer_kind}
use ds_sql_dps_rs.Dataplane.Config.{Config, file_offer}
use ds_sql_dps_rs.Dataplane.Handler.{FileOfferHandler, new_handler, World}
use ds_sql_dps_rs.Dataplane.Tokens
use ds_sql_dps_rs.Dataplane.Registration.{
  DataPlaneRegistration, RegistrationError, Put, register_with_control_plane,
}

-- `TcpListener`: its port, as `local_addr` reports it.
pub record Listener : Type 0 where
  pub local_port : Result String ℕ

-- `bind n addr` is the outcome of the `n`-th bind. `create_control_plane` is the transaction on the
-- control plane repository, `build_sdk` is `DataPlaneSdk::builder(…).build()`.
pub record Startup : Type 0 where
  pub bind : ℕ → String → Result String Listener
  pub create_control_plane : Result String (Unit {0})
  pub build_sdk : Result String (Unit {0})
  pub put : Put

-- What is logged about the connector and the registration.
pub data Event : Type 0 where
  round_trip : Document → Event
  round_trip_failed : ConnectorError → Event
  registered : Event
  registration_failed : RegistrationError → Event

-- `App`, with what its routers were built from.
pub record App (O : Oxigraph) : Type 0 where
  pub signaling_listener : Listener
  pub public_listener : Listener
  pub handler : FileOfferHandler
  pub world : World O
  pub participant : String
  pub control_plane_callback : String
  pub log : List Event

-- `if port == 0 { the assigned port } else { … }`
unfoldable pub base_url : ℕ → Listener → String → Result String String
base_url port listener configured =
    if nat_eq port 0
    then (do assigned ← listener.local_port; ok ("http://localhost:" <> to_string assigned))
    else ok configured

unfoldable pub registration_of : Config → String → DataPlaneRegistration
registration_of c endpoint = record {
  dataplane_id = c.dataplane_id;
  endpoint = endpoint;
  transfer_types = "HttpData-PULL" ∷ [];
  labels = none;
  authorization = none;
}

abbrev pub registration_event : Result RegistrationError (Unit {0}) → Event
registration_event (ok done) = registered
registration_event (err e) = registration_failed e

-- The optional registration: its failure is logged, and is no failure of the start.
unfoldable pub try_register : Put → Config → Listener → Result String (List Event)
unfolding base_url registration_of
try_register put c listener = elim c.control_plane_url [
  | none ↦ ok []
  | some url ↦ do
    endpoint ←
        base_url c.signaling_port listener ("http://localhost:" <> to_string c.signaling_port)
    let outcome =
        register_with_control_plane put url c.participant_context_id (registration_of c endpoint)
    ok (registration_event outcome ∷ [])
]

module _ (O : Oxigraph) where
  -- `ConfigGraph::open_in_memory()?` and `graph.seed_offer(&offer)?`
  unfoldable pub seeded_graph : Config → Result String (ConfigGraph O)
  seeded_graph c = do
    graph ← map_err display (open_in_memory O)
    let (seeded, graph') = seed_offer O (file_offer c) graph
    done ← map_err display seeded
    ok graph'

  unfoldable pub prove_round_trip : Config → ConfigGraph O → Event
  prove_round_trip c graph = elim (Contreforts.get O graph data_offer_kind c.dataset_id) [
    | ok doc ↦ round_trip doc
    | err e ↦ round_trip_failed e
  ]

  unfoldable pub build : Startup → Config → Result String (App O)
  unfolding seeded_graph prove_round_trip try_register
  build env c = do
    graph ← seeded_graph c
    let first = prove_round_trip c graph
    public_listener ← env.bind 0 ("0.0.0.0:" <> to_string c.public_port)
    public_base_url ← base_url c.public_port public_listener c.public_base_url
    created ← env.create_control_plane
    sdk ← map_err (λ e. "failed to build DataPlaneSdk: " <> e) env.build_sdk
    signaling_listener ← env.bind 1 ("0.0.0.0:" <> to_string c.signaling_port)
    events ← try_register env.put c signaling_listener
    ok (record {
      signaling_listener = signaling_listener;
      public_listener = public_listener;
      handler = new_handler public_base_url (file_offer c) c.tck_mode;
      world = record { graph = graph; tokens = Tokens.default };
      participant = c.participant_context_id;
      control_plane_callback = "http://localhost:" <> (to_string c.signaling_port <> "/callback");
      log = first ∷ events;
    })
