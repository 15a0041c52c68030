-- ===== src/Dataplane/Handler.antt =====
-- dataplane/src/handler.rs: the hooks that the signaling SDK calls. The SDK's transaction is not
-- used by any hook, and its messages are given by the fields that the hooks read and write.
pub mod Admission
pub mod Seeding
use ds_sql_dps_rs.Prelude.{String, ◌<>◌, ℕ, Bool, true, false, List, [], ◌∷◌, Result, ok, err}
use ds_sql_dps_rs.Oxigraph.{Oxigraph}
use ds_sql_dps_rs.ConfigGraph.Offer.{FileOffer}
use ds_sql_dps_rs.ConfigGraph.Store.{ConfigGraph, display, file_path}
use ds_sql_dps_rs.ConfigGraph.Seed.{seed_offer}
use ds_sql_dps_rs.Dataplane.Tokens.{TokenStore, issue, revoke_flow}

pub record DataFlow : Type 0 where
  pub id : String
  pub dataset_id : String

pub data HandlerError : Type 0 where
  not_supported : String → HandlerError

pub record EndpointProperty : Type 0 where
  pub name : String
  pub value : String

pub record DataAddress : Type 0 where
  pub endpoint : String
  pub endpoint_type : String
  pub endpoint_properties : List EndpointProperty

-- The one state that the hooks report, of the SDK's `DataFlowState`.
pub data DataFlowState : Type 0 where
  started : DataFlowState

pub record DataFlowStatusMessage : Type 0 where
  pub data_flow_id : String
  pub state : DataFlowState
  pub data_address : DataAddress

pub record FileOfferHandler : Type 0 where
  pub public_base_url : String
  pub default_offer : FileOffer
  pub tck_mode : Bool

-- `FileOfferHandler::new`
abbrev pub new_handler : String → FileOffer → Bool → FileOfferHandler
new_handler public_base_url default_offer tck_mode = record {
  public_base_url = public_base_url;
  default_offer = default_offer;
  tck_mode = tck_mode;
}

module _ (O : Oxigraph) where
  -- What the handler and the public endpoint share: `Arc<ConfigGraph>` and `Arc<TokenStore>`.
  pub record World : Type 0 where
    pub graph : ConfigGraph O
    pub tokens : TokenStore

  -- `FileOffer { dataset_id: …, ..self.default_offer.clone() }`
  abbrev pub auto_offer : FileOfferHandler → DataFlow → FileOffer
  auto_offer h flow = record {
    dataset_id = flow.dataset_id;
    title = h.default_offer.title;
    file_path = h.default_offer.file_path;
    media_type = h.default_offer.media_type;
    assigner = h.default_offer.assigner;
    permissions = h.default_offer.permissions;
  }

  -- The test at the head of `on_start`: an unknown dataset is refused, or seeded in TCK mode.
  unfoldable pub admit :
      FileOfferHandler → DataFlow → ConfigGraph O → Result HandlerError (Unit {0}) × ConfigGraph O
  admit h flow g = elim (file_path O flow.dataset_id g) [
    | ok path ↦ (ok tt, g)
    | err e ↦ elim h.tck_mode [
      | false ↦ (
        err (not_supported ("unknown dataset '" <> (flow.dataset_id <> ("': " <> display e)))),
        g,
      )
      | true ↦
          let (r, g') = seed_offer O (auto_offer h flow) g in
          (
            elim r [
              | ok u ↦ ok u
              | err e' ↦ err (
                  not_supported (
                    "TCK_MODE: failed to auto-seed offer for dataset '"
                    <> (flow.dataset_id <> ("': " <> display e'))))
            ],
            g',
          )
    ]
  ]

  abbrev pub status_message : FileOfferHandler → DataFlow → String → DataFlowStatusMessage
  status_message h flow token =
      let endpoint = h.public_base_url <> ("/public/" <> flow.dataset_id) in
      record {
        data_flow_id = flow.id;
        state = started;
        data_address = record {
          endpoint = endpoint;
          endpoint_type = "HTTP";
          endpoint_properties =
              record { name = "endpoint"; value = endpoint }
              ∷ record { name = "authorization"; value = token }
              ∷ record { name = "authType"; value = "bearer" }
              ∷ [];
        };
      }

  unfoldable pub on_start :
      (ℕ → String)
      → FileOfferHandler
      → DataFlow
      → World
      → Result HandlerError DataFlowStatusMessage × World
  on_start uuid h flow w =
      let (r, g) = admit h flow w.graph in
      elim r [
        | err e ↦ (err e, record w { graph = g })
        | ok u ↦
            let (token, tokens) = issue uuid flow.id flow.dataset_id w.tokens in
            (ok (status_message h flow token), record { graph = g; tokens = tokens })
      ]

  unfoldable pub on_terminate : DataFlow → World → Result HandlerError (Unit {0}) × World
  on_terminate flow w = (ok tt, record w { tokens = revoke_flow flow.id w.tokens })

  unfoldable pub can_handle : DataFlow → World → Result HandlerError Bool × World
  can_handle flow w = (ok true, w)

  unfoldable pub on_prepare : DataFlow → World → Result HandlerError DataFlowStatusMessage × World
  on_prepare flow w =
      (err (not_supported "this data plane only implements the provider role (START/TERMINATE)"), w)

  unfoldable pub on_started : DataFlow → World → Result HandlerError (Unit {0}) × World
  on_started flow w = (ok tt, w)

  unfoldable pub on_suspend : DataFlow → World → Result HandlerError (Unit {0}) × World
  on_suspend flow w = (err (not_supported "SUSPEND is not implemented by this MVP data plane"), w)
