-- ===== src/Dataplane/Concurrent.antt =====
-- The hooks of dataplane/src/handler.rs and the requests of dataplane/src/public.rs as tasks that run
-- at the same time. A task goes on by one step at a time: an operation on the tokens, which holds
-- their lock, a read of the graph, whose queries count as one step, or one insertion into the store.
pub mod Steps
pub mod Explained
pub mod Moves
pub mod Finish
pub mod Since
pub mod Laws
pub mod Answers
pub mod Moments
pub mod Kept
use ds_sql_dps_rs.Prelude.{
  String, ◌<>◌, ℕ, zero, suc, true, false, none, some, List, [], ◌∷◌, Result, ok, err, ◌==◌, not,
  if◌then◌else◌,
}
use ds_sql_dps_rs.Rdf.{Quad}
use ds_sql_dps_rs.Oxigraph.{Oxigraph}
use ds_sql_dps_rs.ConfigGraph.Offer.{PathBuf, to_string_lossy}
use ds_sql_dps_rs.ConfigGraph.Store.{
  ConfigGraph, ConfigGraphError, storage, display, file_path, media_type,
}
use ds_sql_dps_rs.ConfigGraph.Policy.{policy_jsonld}
use ds_sql_dps_rs.ConfigGraph.Seed.{offer_quads}
use ds_sql_dps_rs.Dataplane.Tokens.{lookup, issue, revoke_flow}
use ds_sql_dps_rs.Dataplane.Handler.{
  World, DataFlow, FileOfferHandler, HandlerError, DataFlowStatusMessage, not_supported, auto_offer,
  status_message,
}
use ds_sql_dps_rs.Dataplane.Handler.Admission.{unknown_dataset}
use ds_sql_dps_rs.Dataplane.Public.{
  Engine, allow, other, Response, bytes, Surroundings, engine_request, refuse, media_or_default,
}

-- A request, with what it finds outside.
pub record Visit : Type 0 where
  pub env : Surroundings
  pub dataset_id : String
  pub token : String

pub data Task : Type 0 where
  get_asked : Visit → Task
  -- The token is good for the dataset.
  get_checked : Visit → Task
  -- The policy has allowed the request.
  get_permitted : Visit → Task
  -- The file's path is known.
  get_located : Visit → PathBuf → Task
  get_done : Visit → Response → Task
  start_asked : DataFlow → Task
  -- In TCK mode: these quads are still to be inserted.
  start_seeding : DataFlow → List Quad → Task
  -- The dataset is known, or seeded.
  start_admitted : DataFlow → Task
  start_done : DataFlow → Result HandlerError DataFlowStatusMessage → Task
  stop_asked : DataFlow → Task
  stop_done : DataFlow → Task

abbrev pub failed_seeding : DataFlow → ConfigGraphError → HandlerError
failed_seeding flow e = not_supported (
    "TCK_MODE: failed to auto-seed offer for dataset '"
    <> (flow.dataset_id <> ("': " <> display e)))

module _ (O : Oxigraph) where
  -- The token of a request.
  abbrev pub check : Visit → World O → Task
  check v w = elim (lookup v.token w.tokens) [
    | none ↦ get_done v (refuse 401 "invalid or expired token")
    | some entry ↦
        if not (entry.dataset_id == v.dataset_id)
        then get_done v (refuse 403 "token not valid for this dataset")
        else get_checked v
  ]

  abbrev pub locate : Visit → ConfigGraph O → Task
  locate v g = elim (file_path O v.dataset_id g) [
    | err e ↦ get_done v (refuse 404 (display e))
    | ok path ↦ get_located v path
  ]

  -- The file, under the media type.
  abbrev pub deliver : Visit → PathBuf → ConfigGraph O → Response
  deliver v path g =
      let kind = media_or_default (media_type O v.dataset_id g) in
      elim (v.env.read path) [
        | ok content ↦ elim (v.env.header_error kind) [
          | none ↦ record { status = 200; content_type = some kind; body = bytes content }
          | some e ↦ refuse 500 e
        ]
        | err e ↦ refuse 500 ("failed to read " <> (to_string_lossy path <> (": " <> e)))
      ]

  -- One insertion of the loop at the end of `seed_offer`.
  abbrev pub seed : DataFlow → Quad → List Quad → World O → Task × World O
  seed flow q rest w = elim (O.insert w.graph.store q) [
    | err m ↦ (start_done flow (err (failed_seeding flow (storage m))), w)
    | ok store ↦ (
      start_seeding flow rest,
      record w { graph = record { store = store; blanks = w.graph.blanks } },
    )
  ]

  -- The policy of a request.
  abbrev pub permit : Engine → Visit → ConfigGraph O → Task
  permit E v g = elim (policy_jsonld O v.dataset_id g) [
    | err e ↦ get_done v (refuse 500 (display e))
    | ok policy_doc ↦ elim (E.ingest_policy_value policy_doc) [
      | err e ↦ get_done v (refuse 500 ("policy ingestion failed: " <> e))
      | ok policy ↦
          let (decision, reason) =
            E.evaluate_request (engine_request O E v.env.now policy v.dataset_id) in
          elim decision [
            | other ↦ get_done v (refuse 403 ("policy denied this request: " <> reason))
            | allow ↦ get_permitted v
          ]
    ]
  ]

  module _ (h : FileOfferHandler) where
    -- The dataset of a start: in TCK mode, the quads of an unknown one are made.
    abbrev pub look : DataFlow → World O → Task × World O
    look flow w = elim (file_path O flow.dataset_id w.graph) [
      | ok path ↦ (start_admitted flow, w)
      | err e ↦ elim h.tck_mode [
        | false ↦ (start_done flow (err (unknown_dataset flow e)), w)
        | true ↦ elim (offer_quads O w.graph.blanks (auto_offer O h flow)) [
          | err x ↦ (start_done flow (err (failed_seeding flow x)), w)
          | ok made ↦ (
            start_seeding flow made.0,
            record w { graph = record { store = w.graph.store; blanks = made.1 } },
          )
        ]
      ]
    ]

    abbrev pub finish : (ℕ → String) → DataFlow → World O → Task × World O
    finish uuid flow w =
        let (token, tokens) = issue uuid flow.id flow.dataset_id w.tokens in
        (
          start_done flow (ok (status_message O h flow token)),
          record { graph = w.graph; tokens = tokens },
        )

module _ (O : Oxigraph) (E : Engine) (uuid : ℕ → String) (h : FileOfferHandler) where
  -- The next step of a task.
  unfoldable pub advance : Task → World O → Task × World O
  advance (get_asked v) w = (check O v w, w)
  advance (get_checked v) w = (permit O E v w.graph, w)
  advance (get_permitted v) w = (locate O v w.graph, w)
  advance (get_located v path) w = (get_done v (deliver O v path w.graph), w)
  advance (get_done v r) w = (get_done v r, w)
  advance (start_asked flow) w = look O h flow w
  advance (start_seeding flow []) w = (start_admitted flow, w)
  advance (start_seeding flow (q ∷ rest)) w = seed O flow q rest w
  advance (start_admitted flow) w = finish O h uuid flow w
  advance (start_done flow r) w = (start_done flow r, w)
  advance (stop_asked flow) w = (stop_done flow, record w { tokens = revoke_flow flow.id w.tokens })
  advance (stop_done flow) w = (stop_done flow, w)

  -- One step of the task at a place; without a task nothing happens.
  unfoldable pub turn : ℕ → List Task → World O → List Task × World O
  unfolding advance
  turn n [] w = ([], w)
  turn zero (t ∷ ts) w = let (t', w') = advance t w in (t' ∷ ts, w')
  turn (suc n) (t ∷ ts) w = let (ts', w') = turn n ts w in (t ∷ ts', w')

  -- The tasks take turns as a schedule says.
  unfoldable pub interleave : List ℕ → List Task → World O → List Task × World O
  unfolding turn
  interleave [] ts w = (ts, w)
  interleave (n ∷ ns) ts w = let (ts', w') = turn n ts w in interleave ns ts' w'
