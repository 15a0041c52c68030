-- ===== src/Tests/Dataplane.antt =====
-- Tokens, flows and requests on the concrete store, with a concrete policy engine.
use ds_sql_dps_rs.Prelude.{
  String, ℕ, true, err, All, ◌≡◌, ◌≢◌, refl, sym, ap, ◌∙◌, false, none, some, [], ◌∷◌, ok, ◌==◌,
  ◌⊎◌, if◌then◌else◌,
}
use ds_sql_dps_rs.Prelude.Decimal.{to_string, integer_value, integer_value-to_string}
use ds_sql_dps_rs.ConfigGraph.Offer.{PathBuf, unicode, other, FileOffer}
use ds_sql_dps_rs.ConfigGraph.Json.{Json}
use ds_sql_dps_rs.ConfigGraph.RoundTrip.{ReadsBack}
use ds_sql_dps_rs.ConfigGraph.RoundTrip.Laws.{History-ReadsBack}
use ds_sql_dps_rs.ConfigGraph.ReadBack.{offer_document}
use ds_sql_dps_rs.Dataplane.Tokens
use ds_sql_dps_rs.Dataplane.Tokens.{TokenRecord, TokenStore, lookup}
use ds_sql_dps_rs.Dataplane.Tokens.Laws.{
  start, terminate, granted, run, lookup-run, lookup-run_unknown,
}
use ds_sql_dps_rs.Dataplane.Handler.{World, DataFlow, FileOfferHandler, on_start, on_terminate}
use ds_sql_dps_rs.Dataplane.Public.{
  Engine, WireDecision, allow, Surroundings, Response, bytes, refuse, enforce, get_file,
}
use ds_sql_dps_rs.Dataplane.Public.Laws.{Authorized, Allowed, Delivered, get_file_safe}
use ds_sql_dps_rs.Dataplane.Flows.{
  Started, Refused, on_start_lem, get_file-on_start, get_file-on_terminate,
}
use ds_sql_dps_rs.Dataplane.Served.{Earns, IsServedIff, get_file_iff}
use ds_sql_dps_rs.ConfigGraph.Store.{file_path, not_found}
use ds_sql_dps_rs.ConfigGraph.RoundTrip.{History}
use ds_sql_dps_rs.Dataplane.Handler.{auto_offer, status_message}
use ds_sql_dps_rs.Dataplane.Handler.Seeding.{on_start-seeded}
use ds_sql_dps_rs.Tests.ConfigGraph.{
  sales_graph, sales-History, stock_id, stock-IsApart, sales-IsApart,
}
use ds_sql_dps_rs.Tests.Memory.{memory, memory-IsInMemory, to_string_injective}
use ds_sql_dps_rs.Tests.ConfigGraph.{vocabulary, sales, stock, both_graph, both-History}

-- Two flows are started, the first is terminated.
lookup-run_example :
    lookup "1" (run to_string (terminate "f" ∷ start "g" "stock" ∷ start "f" "sales" ∷ []))
    ≡ granted 1 (terminate "f" ∷ start "g" "stock" ∷ start "f" "sales" ∷ [])
unfolding to_string
lookup-run_example =
    lookup-run to_string to_string_injective 1
      (terminate "f" ∷ start "g" "stock" ∷ start "f" "sales" ∷ [])

token_ne : (n : ℕ) → to_string n ≢ "x"
unfolding integer_value
token_ne n e =
    let clash : some n ≡ none = sym (integer_value-to_string n) ∙ ap integer_value e in cc (clash)

lookup-run_unknown_example : lookup "x" (run to_string (start "f" "sales" ∷ [])) ≡ none
lookup-run_unknown_example = lookup-run_unknown to_string "x" token_ne (start "f" "sales" ∷ [])

-- An engine that allows a request before noon.
abbrev pub engine : Engine
engine = record {
  Policy = Json;
  Request = String;
  ingest_policy_value = λ j. ok j;
  request_for = λ p target action claims mode behaviour. elim claims [ [] ↦ "" | ◌∷◌ c cs ↦ c.1 ];
  evaluate_request =
      λ now. (if now == "10:00" then allow else ds_sql_dps_rs.Dataplane.Public.other, "too late");
}

abbrev pub at : String → Surroundings
at now = record { now = now; read = λ p. ok (1 ∷ 2 ∷ []); header_error = λ s. none }

abbrev pub handler : FileOfferHandler
handler = record {
  public_base_url = "http://localhost:9192";
  default_offer = sales;
  tck_mode = false;
}

abbrev pub flow : DataFlow
flow = record { id = "f"; dataset_id = "sales" }

abbrev pub idle : World memory
idle = record { graph = both_graph; tokens = Tokens.default }

abbrev running : World memory
running = record {
  graph = both_graph;
  tokens = record {
    tokens = ("0", record { flow_id = "f"; dataset_id = "sales" }) ∷ [];
    issued = 1;
  };
}

pub sales-ReadsBack : ReadsBack memory memory-IsInMemory vocabulary both_graph sales
sales-ReadsBack = (History-ReadsBack memory memory-IsInMemory vocabulary both-History).1.0

authorized : Authorized memory engine (at "10:00") running "sales" "0"
authorized = record {
  entry = record { flow_id = "f"; dataset_id = "sales" };
  known = unfold lookup Tokens.find in refl;
  for_dataset = refl;
}

get_file_iff_example :
    All
      (IsServedIff memory memory-IsInMemory vocabulary engine (at "10:00") running "0")
      (stock ∷ sales ∷ [])
get_file_iff_example =
    get_file_iff memory memory-IsInMemory vocabulary engine (at "10:00") running "0" both-History

-- The token is of a flow for the second of them, and it is early enough.
earned :
    Earns memory memory-IsInMemory vocabulary engine (at "10:00") running "0" sales (1 ∷ 2 ∷ [])
earned = record {
  authorized = authorized;
  allowed = record {
    policy = offer_document sales;
    ingested = refl;
    decision = refl;
    readable = refl;
    header = refl;
  };
}

served_status : (get_file memory engine (at "10:00") running "sales" "0").status ≡ 200
served_status =
    (get_file_iff memory memory-IsInMemory vocabulary engine (at "10:00") running "0"
        both-History).1.0.0.1
      (1 ∷ 2 ∷ [], earned)

get_file_safe_example :
    Authorized memory engine (at "10:00") running "sales" "0"
    × Allowed memory engine (at "10:00") both_graph "sales"
    × Delivered memory engine
        (at "10:00")
        both_graph
        "sales"
        (get_file memory engine (at "10:00") running "sales" "0")
get_file_safe_example = get_file_safe memory engine (at "10:00") running "sales" "0" served_status

on_start_lem_example :
    Started memory to_string handler flow idle
      (on_start memory to_string handler flow idle).1
      (on_start memory to_string handler flow idle).0
    ⊎ Refused memory to_string flow idle
        (on_start memory to_string handler flow idle).1
        (on_start memory to_string handler flow idle).0
on_start_lem_example = on_start_lem memory to_string handler flow idle refl

get_file-on_start_example :
    get_file memory engine
      (at "10:00")
      (on_start memory to_string handler flow idle).1
      "sales"
      (to_string 0)
    ≡ enforce memory engine (at "10:00") both_graph "sales"
unfolding ds_sql_dps_rs.ConfigGraph.Offer.to_string_lossy
get_file-on_start_example =
    get_file-on_start memory to_string engine (at "10:00") handler flow idle
      (unicode "data/sample.csv") sales-ReadsBack.path

get_file-on_terminate_example :
    get_file memory engine (at "10:00") (on_terminate memory flow running).1 "sales" "0"
    ≡ refuse 401 "invalid or expired token"
unfolding authorized
get_file-on_terminate_example =
    get_file-on_terminate memory engine (at "10:00") flow running "sales" "0"
      (record { flow_id = "f"; dataset_id = "sales" }) (unfold Tokens.find in (refl, tt))
      authorized.known

-- A start in TCK mode for a dataset that is not there.
abbrev pub tck_handler : FileOfferHandler
tck_handler = record {
  public_base_url = "http://localhost:9192";
  default_offer = sales;
  tck_mode = true;
}

abbrev pub stock_flow : DataFlow
stock_flow = record { id = "g"; dataset_id = "stock" }

abbrev pub sales_world : World memory
sales_world = record { graph = sales_graph; tokens = Tokens.default }

stock_unknown : file_path memory "stock" sales_graph ≡ err (not_found "stock")
unfolding file_path ds_sql_dps_rs.Tests.Memory.sort ds_sql_dps_rs.Sparql.solutions
    ds_sql_dps_rs.ConfigGraph.Seed.seed_offer ds_sql_dps_rs.ConfigGraph.Seed.offer_quads
    ds_sql_dps_rs.ConfigGraph.Seed.insert_quads ds_sql_dps_rs.Oxigraph.add ds_sql_dps_rs.Rdf.quad_eq
    to_string ds_sql_dps_rs.ConfigGraph.Store.distribution_iri
    ds_sql_dps_rs.ConfigGraph.Store.dataset_iri ds_sql_dps_rs.Sparql.Grammar.parse
    ds_sql_dps_rs.ConfigGraph.Store.file_path_query ds_sql_dps_rs.ConfigGraph.Store.policy_iri
    ds_sql_dps_rs.Sparql.Text.is_iri_char
stock_unknown = refl

on_start-seeded_example :
    (w' : World memory) × (on_start memory to_string tck_handler stock_flow sales_world
      ≡ (ok (status_message memory tck_handler stock_flow (to_string 0)), w'))
    × History memory memory-IsInMemory vocabulary w'.graph
        (auto_offer memory tck_handler stock_flow ∷ sales ∷ [])
    × (lookup (to_string 0) w'.tokens ≡ some (record { flow_id = "g"; dataset_id = "stock" }))
on_start-seeded_example =
    on_start-seeded memory memory-IsInMemory vocabulary to_string tck_handler stock_flow sales_world
      (sales ∷ []) (not_found "stock") refl stock_unknown sales-History stock_id
      ((stock-IsApart, sales-IsApart), tt)
