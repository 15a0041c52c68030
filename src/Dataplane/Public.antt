-- ===== src/Dataplane/Public.antt =====
-- dataplane/src/public.rs: `get_file`. The policy engine, the clock and the file system are
-- parameters; axum has taken the bearer token from the header.
pub mod Laws
use ds_sql_dps_rs.Prelude.{
  String, ◌<>◌, ℕ, Bool, true, false, Option, none, some, List, [], ◌∷◌, Result, ok, err, not, ◌==◌,
  if◌then◌else◌,
}
use ds_sql_dps_rs.Oxigraph.{Oxigraph}
use ds_sql_dps_rs.ConfigGraph.Offer.{PathBuf, to_string_lossy}
use ds_sql_dps_rs.ConfigGraph.Json.{Json}
use ds_sql_dps_rs.ConfigGraph.Store.{
  ConfigGraph, ConfigGraphError, display, dataset_iri, file_path, media_type,
}
use ds_sql_dps_rs.ConfigGraph.Policy.{policy_jsonld}
use ds_sql_dps_rs.Dataplane.Tokens.{TokenRecord, lookup}
use ds_sql_dps_rs.Dataplane.Handler.{World}

pub data DutyMode : Type 0 where
  advise : DutyMode

pub data Behaviour : Type 0 where
  closed : Behaviour

-- `WireDecision`: whether it is `Allow` is all that is read of it.
pub data WireDecision : Type 0 where
  allow : WireDecision
  other : WireDecision

-- `Claims`: names with texts.
abbrev pub Claims : Type 0
Claims = List (String × String)

-- The crates `engine` and `dsp_odrl_adapter`.
pub record Engine : Type 1 where
  pub Policy : Type 0
  pub Request : Type 0
  pub ingest_policy_value : Json → Result String Policy
  pub request_for : Policy → String → String → Claims → DutyMode → Behaviour → Request
  pub evaluate_request : Request → WireDecision × String

pub data Body : Type 0 where
  text : String → Body
  bytes : List ℕ → Body

-- A text body has axum's own content type.
pub record Response : Type 0 where
  pub status : ℕ
  pub content_type : Option String
  pub body : Body

abbrev pub refuse : ℕ → String → Response
refuse status message = record { status = status; content_type = none; body = text message }

-- `.unwrap_or_else(|_| "application/octet-stream".to_string())`
abbrev pub media_or_default : Result ConfigGraphError String → String
media_or_default (ok m) = m
media_or_default (err e) = "application/octet-stream"

-- What a request finds outside this code: `Utc::now().to_rfc3339()`, `tokio::fs::read`, and the
-- error with which axum answers instead if a text is no header value.
pub record Surroundings : Type 0 where
  pub now : String
  pub read : PathBuf → Result String (List ℕ)
  pub header_error : String → Option String

module _ (O : Oxigraph) (E : Engine) where
  -- The request that the engine is asked about an ingested policy.
  abbrev pub engine_request : String → E.Policy → String → E.Request
  engine_request now policy dataset_id =
      E.request_for policy (dataset_iri dataset_id) "use" (("dateTime", now) ∷ []) advise closed

  -- From `file_path` on: the policy has allowed the request.
  unfoldable pub serve_bytes : Surroundings → ConfigGraph O → String → Response
  serve_bytes env g dataset_id = elim (file_path O dataset_id g) [
    | err e ↦ refuse 404 (display e)
    | ok path ↦
        let kind = media_or_default (media_type O dataset_id g) in
        elim (env.read path) [
          | ok content ↦ elim (env.header_error kind) [
            | none ↦ record { status = 200; content_type = some kind; body = bytes content }
            | some e ↦ refuse 500 e
          ]
          | err e ↦ refuse 500 ("failed to read " <> (to_string_lossy path <> (": " <> e)))
        ]
  ]

  -- From `policy_jsonld` on: the token is good for the dataset.
  unfoldable pub enforce : Surroundings → ConfigGraph O → String → Response
  unfolding serve_bytes
  enforce env g dataset_id = elim (policy_jsonld O dataset_id g) [
    | err e ↦ refuse 500 (display e)
    | ok policy_doc ↦ elim (E.ingest_policy_value policy_doc) [
      | err e ↦ refuse 500 ("policy ingestion failed: " <> e)
      | ok policy ↦
          let (decision, reason) = E.evaluate_request (engine_request env.now policy dataset_id) in
          elim decision [
            | other ↦ refuse 403 ("policy denied this request: " <> reason)
            | allow ↦ serve_bytes env g dataset_id
          ]
    ]
  ]

  unfoldable pub get_file : Surroundings → World O → String → String → Response
  unfolding enforce
  get_file env w dataset_id token = elim (lookup token w.tokens) [
    | none ↦ refuse 401 "invalid or expired token"
    | some entry ↦
        if not (entry.dataset_id == dataset_id)
        then refuse 403 "token not valid for this dataset"
        else enforce env w.graph dataset_id
  ]
