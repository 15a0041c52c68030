-- ===== src/Dataplane/Flows.antt =====
-- dataplane/src/handler.rs and public.rs together: what a flow's start and termination mean for the
-- requests on the public endpoint.
use ds_sql_dps_rs.Prelude.{
  String, ℕ, suc, ◌≡◌, ◌≢◌, refl, false, some, Result, ok, err, ◌==◌, eq_refl, ap, eq_of_ne,
  if◌then◌else◌, arith, Result-cases, ◌⊎◌, inl, inr, ◌<>◌,
}
use ds_sql_dps_rs.Oxigraph.{Oxigraph}
use ds_sql_dps_rs.ConfigGraph.Offer.{PathBuf}
use ds_sql_dps_rs.ConfigGraph.Store.{ConfigGraphError, display, file_path}
use ds_sql_dps_rs.Dataplane.Tokens.{TokenRecord, issue, lookup}
use ds_sql_dps_rs.Dataplane.Tokens.Laws.{HasNoRepeats, lookup-issue, lookup-revoke_flow}
use ds_sql_dps_rs.Dataplane.Handler.{
  World, DataFlow, FileOfferHandler, HandlerError, not_supported, DataFlowStatusMessage,
  status_message, on_start, on_terminate,
}
use ds_sql_dps_rs.Dataplane.Handler.Admission.{
  admit-known, admit-refused, on_start-admitted, on_start-refused,
}
use ds_sql_dps_rs.Dataplane.Public.{Engine, Surroundings, enforce, get_file, refuse}
use ds_sql_dps_rs.Dataplane.Public.Laws.{Authorized}

module _ (O : Oxigraph) (uuid : ℕ → String) where
  -- A flow is running: its dataset has a file path in the graph, the message carries a new token,
  -- which is worth the flow's dataset, every other token is worth what it was, and the graph has
  -- not changed.
  pub record Started (h : FileOfferHandler) (flow : DataFlow) (w w' : World O)
      (r : Result HandlerError DataFlowStatusMessage) : Type 0 where
    pub path : PathBuf
    pub known : file_path O flow.dataset_id w.graph ≡ ok path
    pub answer : r ≡ ok (status_message O h flow (uuid w.tokens.issued))
    pub graph : w'.graph ≡ w.graph
    pub issued : w'.tokens.issued ≡ suc w.tokens.issued
    pub own :
        lookup (uuid w.tokens.issued) w'.tokens
        ≡ some (record { flow_id = flow.id; dataset_id = flow.dataset_id })
    pub others :
        (token : String)
        → uuid w.tokens.issued ≢ token
        → lookup token w'.tokens ≡ lookup token w.tokens

  -- A flow was refused: an error, and nothing has changed.
  pub record Refused (flow : DataFlow) (w w' : World O)
      (r : Result HandlerError DataFlowStatusMessage) : Type 0 where
    pub cause : ConfigGraphError
    pub unknown : file_path O flow.dataset_id w.graph ≡ err cause
    pub answer :
        r
        ≡ err (not_supported ("unknown dataset '" <> (flow.dataset_id <> ("': " <> display cause))))
    pub world : w' ≡ w

  -- The start of a flow for a dataset that the graph has.
  pub on_start-known :
      (h : FileOfferHandler) (flow : DataFlow) (w : World O) (path : PathBuf)
      → file_path O flow.dataset_id w.graph ≡ ok path
      → Started h flow w (on_start O uuid h flow w).1 (on_start O uuid h flow w).0
  unfolding issue
  on_start-known h flow w path p =
      let started =
        on_start-admitted O h flow uuid w w.graph (admit-known O h flow w.graph path p) in
      rw started (record {
        path = path;
        known = p;
        answer = refl;
        graph = refl;
        issued = refl;
        own = rw (
          lookup-issue uuid flow.id flow.dataset_id (uuid w.tokens.issued) w.tokens,
          eq_refl (uuid w.tokens.issued),
        );
        others = λ token ne.
            rw (lookup-issue uuid flow.id flow.dataset_id token w.tokens, eq_of_ne _ _ ne);
      })

  -- Outside TCK mode, the start of a flow either succeeds, for a dataset whose file path the graph
  -- has, with a new token that is worth this dataset, every other token worth what it was and the
  -- graph unchanged, or is refused, for a dataset whose file path the graph does not have, with an
  -- error that names the cause and nothing changed.
  pub on_start_lem :
      (h : FileOfferHandler) (flow : DataFlow) (w : World O)
      → h.tck_mode ≡ false
      → Started h flow w (on_start O uuid h flow w).1 (on_start O uuid h flow w).0
        ⊎ Refused flow w (on_start O uuid h flow w).1 (on_start O uuid h flow w).0
  on_start_lem h flow w normal = elim (Result-cases (file_path O flow.dataset_id w.graph)) [
    | inl (path, p) ↦ inl (on_start-known h flow w path p)
    | inr (e, p) ↦
        let refused =
          on_start-refused O h flow uuid w _ (admit-refused O h flow w.graph e p normal) in
        inr (record {
          cause = e;
          unknown = p;
          answer = ap (λ r. r.0) refused;
          world = ap (λ r. r.1) refused;
        })
  ]

  -- After the start of a flow for a dataset that the graph has, a request for this dataset with
  -- the flow's token is decided by the policy alone.
  pub get_file-on_start :
      (E : Engine) (env : Surroundings) (h : FileOfferHandler) (flow : DataFlow) (w : World O)
      (path : PathBuf)
      → file_path O flow.dataset_id w.graph ≡ ok path
      → get_file O E env (on_start O uuid h flow w).1 flow.dataset_id (uuid w.tokens.issued)
        ≡ enforce O E env w.graph flow.dataset_id
  unfolding get_file
  get_file-on_start E env h flow w path p =
      let s = on_start-known h flow w path p in
      rw (s.own, eq_refl flow.dataset_id, s.graph, get_file)

module _ (O : Oxigraph) (E : Engine) (env : Surroundings) where
  -- A good token leaves the decision to the policy.
  pub get_file-Authorized :
      (w : World O) (id token : String)
      → Authorized O E env w id token
      → get_file O E env w id token ≡ enforce O E env w.graph id
  unfolding get_file
  get_file-Authorized w id token a = rw (a.known, a.for_dataset, eq_refl id, get_file)

  -- In a token store without repeats, after the termination of a flow: a token that was known as
  -- the flow's is refused with 401, for every dataset, and a request with any other known token
  -- is answered as before.
  pub get_file-on_terminate :
      (flow : DataFlow) (w : World O) (id token : String) (entry : TokenRecord)
      → HasNoRepeats w.tokens.tokens
      → lookup token w.tokens ≡ some entry
      → get_file O E env (on_terminate O flow w).1 id token ≡ (
          if entry.flow_id == flow.id
          then refuse 401 "invalid or expired token"
          else get_file O E env w id token)
  unfolding get_file on_terminate
  get_file-on_terminate flow w id token entry fresh known =
      rw (lookup-revoke_flow flow.id token w.tokens fresh, known, get_file, on_terminate)
        (ground (arith, known))
