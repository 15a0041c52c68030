-- ===== src/Dataplane/System.antt =====
-- The data plane as a whole: the hooks of dataplane/src/handler.rs, called in any order, and the
-- requests of dataplane/src/public.rs in between; and what should be answered, said without a graph.
pub mod Answers
pub mod Good
pub mod Keeps
pub mod Laws
pub mod Deadline
pub mod Revoked
pub mod Starts
use ds_sql_dps_rs.Prelude.{
  String, ◌<>◌, ℕ, Bool, true, false, Option, none, some, List, [], ◌∷◌, ok, err, ◌==◌, ◌||◌, not,
  if◌then◌else◌,
}
use ds_sql_dps_rs.Oxigraph.{Oxigraph}
use ds_sql_dps_rs.ConfigGraph.Offer.{unicode, to_string_lossy, FileOffer}
use ds_sql_dps_rs.ConfigGraph.ReadBack.{offer_document}
use ds_sql_dps_rs.Dataplane.Tokens.{TokenRecord}
use ds_sql_dps_rs.Dataplane.Tokens.Laws.{Op, start, terminate}
use ds_sql_dps_rs.Dataplane.Handler.{
  World, DataFlow, FileOfferHandler, on_start, on_terminate, on_prepare, on_started, on_suspend,
  can_handle,
}
use ds_sql_dps_rs.Dataplane.Public.{
  Engine, WireDecision, allow, other, Response, bytes, Surroundings, engine_request, refuse,
}

-- The calls of the signaling SDK.
pub data Call : Type 0 where
  asks : DataFlow → Call
  starts : DataFlow → Call
  prepares : DataFlow → Call
  terminates : DataFlow → Call
  confirms : DataFlow → Call
  suspends : DataFlow → Call

module _ (O : Oxigraph) (uuid : ℕ → String) (h : FileOfferHandler) where
  unfoldable pub apply : Call → World O → World O
  unfolding can_handle on_prepare on_started on_suspend
  apply (asks flow) w = (can_handle O flow w).1
  apply (starts flow) w = (on_start O uuid h flow w).1
  apply (prepares flow) w = (on_prepare O flow w).1
  apply (terminates flow) w = (on_terminate O flow w).1
  apply (confirms flow) w = (on_started O flow w).1
  apply (suspends flow) w = (on_suspend O flow w).1

  -- The calls in turn, the latest first.
  unfoldable pub execute : World O → List Call → World O
  unfolding apply
  execute w [] = w
  execute w (c ∷ cs) = apply c (execute w cs)

-- The datasets that the handler accepts: its own, and in TCK mode all.
abbrev pub accepts : FileOfferHandler → String → Bool
accepts h id = h.tck_mode || h.default_offer.dataset_id == id

-- What the calls mean for the tokens: a start counts if its dataset is accepted.
unfoldable pub token_ops : FileOfferHandler → List Call → List Op
token_ops h [] = []
token_ops h (starts flow ∷ cs) =
    let rest = token_ops h cs in
    if accepts h flow.dataset_id then start flow.id flow.dataset_id ∷ rest else rest
token_ops h (terminates flow ∷ cs) = terminate flow.id ∷ token_ops h cs
token_ops h (asks flow ∷ cs) = token_ops h cs
token_ops h (prepares flow ∷ cs) = token_ops h cs
token_ops h (confirms flow ∷ cs) = token_ops h cs
token_ops h (suspends flow ∷ cs) = token_ops h cs

-- The offer of the handler under a dataset id.
abbrev pub offer_under : FileOfferHandler → String → FileOffer
offer_under h id = record h.default_offer { dataset_id = id }

module _ (O : Oxigraph) (E : Engine) (env : Surroundings) where
  -- What is answered for an offer whose policy has allowed the request.
  abbrev pub file_answer : FileOffer → Response
  file_answer offer = elim (env.read (unicode (to_string_lossy offer.file_path))) [
    | err e ↦ refuse 500 ("failed to read " <> (to_string_lossy offer.file_path <> (": " <> e)))
    | ok content ↦ elim (env.header_error offer.media_type) [
      | some e ↦ refuse 500 e
      | none ↦ record { status = 200; content_type = some offer.media_type; body = bytes content }
    ]
  ]

  abbrev pub policy_answer : FileOffer → Response
  policy_answer offer = elim (E.ingest_policy_value (offer_document offer)) [
    | err e ↦ refuse 500 ("policy ingestion failed: " <> e)
    | ok policy ↦
        let (decision, reason) =
          E.evaluate_request (engine_request O E env.now policy offer.dataset_id) in
        elim decision [
          | other ↦ refuse 403 ("policy denied this request: " <> reason)
          | allow ↦ file_answer offer
        ]
  ]

  -- The answer to a request with a token that is worth this record.
  abbrev pub request_answer : FileOfferHandler → Option TokenRecord → String → Response
  request_answer h none id = refuse 401 "invalid or expired token"
  request_answer h (some entry) id =
      if not (entry.dataset_id == id)
      then refuse 403 "token not valid for this dataset"
      else policy_answer (offer_under h id)
