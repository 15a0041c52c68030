-- ===== src/Dataplane/Concurrent/Moments.antt =====
-- The moments of an interleaving, in either mode of the handler: which operations of
-- dataplane/src/tokens.rs the steps are, and when a task found out what it goes by.
pub mod Steps
pub mod Laws
use ds_sql_dps_rs.Prelude.{
  String, ℕ, zero, suc, true, ◌≡◌, ◌≢◌, some, List, [], ◌∷◌, ◌++◌, Result, ok, err, ◌⊎◌,
}
use ds_sql_dps_rs.Oxigraph.{Oxigraph}
use ds_sql_dps_rs.ConfigGraph.Offer.{PathBuf}
use ds_sql_dps_rs.ConfigGraph.Store.{ConfigGraph, file_path, media_type}
use ds_sql_dps_rs.Dataplane.Tokens.Laws.{Op, start, terminate}
use ds_sql_dps_rs.Dataplane.Handler.{
  World, DataFlow, FileOfferHandler, HandlerError, DataFlowStatusMessage, status_message,
}
use ds_sql_dps_rs.Dataplane.Public.{Engine, Response, bytes, media_or_default}
use ds_sql_dps_rs.Dataplane.Public.Laws.{Authorized, Allowed}
use ds_sql_dps_rs.Dataplane.Concurrent.{
  Visit, Task, get_asked, get_checked, get_permitted, get_located, get_done, start_asked,
  start_seeding, start_admitted, start_done, stop_asked, stop_done, turn,
}

-- The operation on the tokens that the next step of a task is, if it is one that changes them.
abbrev pub op_of : Task → List Op
op_of (start_admitted flow) = start flow.id flow.dataset_id ∷ []
op_of (stop_asked flow) = terminate flow.id ∷ []
op_of (get_asked v) = []
op_of (get_checked v) = []
op_of (get_permitted v) = []
op_of (get_located v path) = []
op_of (get_done v r) = []
op_of (start_asked flow) = []
op_of (start_seeding flow quads) = []
op_of (start_done flow r) = []
op_of (stop_done flow) = []

abbrev pub op_at : ℕ → List Task → List Op
op_at n [] = []
op_at zero (t ∷ ts) = op_of t
op_at (suc n) (t ∷ ts) = op_at n ts

module _ (O : Oxigraph) where
  -- The state before a step, and the operations on the tokens until then, the latest first.
  pub record Moment : Type 0 where
    pub world : World O
    pub ops : List Op

  -- The predicate holds of one of the moments and those before it; the latest comes first.
  abbrev pub Happened : (Moment → List Moment → Type 0) → List Moment → Type 0
  Happened P [] = ⊥
  Happened P (m ∷ before) = P m before ⊎ Happened P before

module _ (O : Oxigraph) (E : Engine) (uuid : ℕ → String) (h : FileOfferHandler) where
  -- The moments of a schedule in front of the past ones, and all operations on the tokens.
  unfoldable pub watch :
      List ℕ → List Task → World O → List Op → List (Moment O) → List (Moment O) × List Op
  unfolding turn
  watch [] ts w ops past = (past, ops)
  watch (n ∷ ns) ts w ops past =
      let (ts', w') = turn O E uuid h n ts w in
      watch ns ts' w' (op_at n ts ++ ops) (record { world = w; ops = ops } ∷ past)

  -- At one moment the token was good for the dataset.
  abbrev pub WasAuthorized : Visit → List (Moment O) → Type 0
  WasAuthorized v = Happened O (λ m before. Authorized O E v.env m.world v.dataset_id v.token)

  -- At one moment the engine allowed the policy that the graph held, and before that the token was
  -- good.
  abbrev pub WasAllowed : Visit → List (Moment O) → Type 0
  WasAllowed v =
      Happened O (λ m before. Allowed O E v.env m.world.graph v.dataset_id × WasAuthorized v before)

  abbrev pub WasLocated : Visit → PathBuf → List (Moment O) → Type 0
  WasLocated v path =
      Happened O
        (λ m before. (file_path O v.dataset_id m.world.graph ≡ ok path) × WasAllowed v before)

  -- The content of a file, under a media type that a graph gives.
  pub record HasRead (v : Visit) (path : PathBuf) (g : ConfigGraph O) (r : Response) : Type 0 where
    pub content : List ℕ
    pub read : v.env.read path ≡ ok content
    pub answer : r ≡ record {
      status = 200;
      content_type = some (media_or_default (media_type O v.dataset_id g));
      body = bytes content;
    }

  abbrev pub WasRead : Visit → Response → List (Moment O) → Type 0
  WasRead v r =
      Happened O
        (λ m before. (path : PathBuf) × HasRead v path m.world.graph r × WasLocated v path before)

  -- At one moment the graph had a file for the dataset, or the handler is in TCK mode.
  abbrev pub WasAdmitted : DataFlow → List (Moment O) → Type 0
  WasAdmitted flow past =
      Happened O
        (λ m before. (path : PathBuf) × (file_path O flow.dataset_id m.world.graph ≡ ok path)) past
      ⊎ (h.tck_mode ≡ true)

  -- At one moment the token of the message was made, and before that the flow was admitted.
  abbrev pub WasIssued : DataFlow → DataFlowStatusMessage → List (Moment O) → Type 0
  WasIssued flow message = Happened O (λ m before.
      (message ≡ status_message O h flow (uuid m.world.tokens.issued)) × WasAdmitted flow before)

  -- The answer to a start: a message says that its token was made.
  abbrev pub WasAnswered :
      DataFlow → Result HandlerError DataFlowStatusMessage → List (Moment O) → Type 0
  WasAnswered flow (ok message) past = WasIssued flow message past
  WasAnswered flow (err e) past = Unit

  -- What a task goes by, or has answered, has happened, in this order.
  abbrev pub Justified : List (Moment O) → Task → Type 0
  Justified past (get_checked v) = WasAuthorized v past
  Justified past (get_permitted v) = WasAllowed v past
  Justified past (get_located v path) = WasLocated v path past
  Justified past (get_done v r) = (r.status ≢ 200) ⊎ WasRead v r past
  Justified past (start_seeding flow quads) = h.tck_mode ≡ true
  Justified past (start_admitted flow) = WasAdmitted flow past
  Justified past (start_done flow r) = WasAnswered flow r past
  Justified past (get_asked v) = Unit
  Justified past (start_asked flow) = Unit
  Justified past (stop_asked flow) = Unit
  Justified past (stop_done flow) = Unit
