-- ===== src/Dataplane/Concurrent/Kept/Answered.antt =====
-- What a request for an offer is answered with, if the offer reads back at every moment: its token
-- is looked up at one moment, and nothing that happens later matters.
use ds_sql_dps_rs.Prelude.{
  String, ◌≡◌, ◌≢◌, refl, sym, subst, Option, none, some, List, ◌⊎◌, inl, inr, ◌==◌, not,
  if◌then◌else◌, Bool-cases, Option-cases, Result-cases,
}
use ds_sql_dps_rs.Oxigraph.{Oxigraph, IsInMemory}
use ds_sql_dps_rs.ConfigGraph.Offer.{unicode, to_string_lossy, FileOffer}
use ds_sql_dps_rs.ConfigGraph.Store.{ConfigGraph}
use ds_sql_dps_rs.ConfigGraph.Seed.Quads.{IsVocabulary}
use ds_sql_dps_rs.ConfigGraph.ReadBack.{offer_document}
use ds_sql_dps_rs.ConfigGraph.RoundTrip.{ReadsBack}
use ds_sql_dps_rs.Dataplane.Tokens.{TokenRecord, lookup}
use ds_sql_dps_rs.Dataplane.Handler.{World}
use ds_sql_dps_rs.Dataplane.Public.{Engine, Surroundings, Response, refuse, engine_request}
use ds_sql_dps_rs.Dataplane.Public.Laws.{WireDecision-cases}
use ds_sql_dps_rs.Dataplane.System.{policy_answer, file_answer}
use ds_sql_dps_rs.Dataplane.Concurrent.{
  Visit, Task, get_asked, get_checked, get_permitted, get_located, get_done, start_asked,
  start_seeding, start_admitted, start_done, stop_asked, stop_done, check, permit, locate, deliver,
}
use ds_sql_dps_rs.Dataplane.Concurrent.Moments.{Moment, Happened}

module _ (O : Oxigraph) (E : Engine) where
  -- The answer for the offer, by what the token is worth.
  abbrev pub offer_answer : FileOffer → Visit → Option TokenRecord → Response
  offer_answer offer v none = refuse 401 "invalid or expired token"
  offer_answer offer v (some entry) =
      if not (entry.dataset_id == offer.dataset_id)
      then refuse 403 "token not valid for this dataset"
      else policy_answer O E v.env offer

  -- At one moment the token was worth what leads to this answer.
  abbrev pub WasDecided : FileOffer → Visit → Response → List (Moment O) → Type 0
  WasDecided offer v r =
      Happened O (λ m before. r ≡ offer_answer offer v (lookup v.token m.world.tokens))

module _ (O : Oxigraph) (M : IsInMemory O) (V : IsVocabulary O) (E : Engine)
    (offer : FileOffer) where
  -- A request that has begun and will be answered so, if nothing changes the offer.
  abbrev pub Settled : Response → Task → Type 0
  Settled r (get_checked v) = r ≡ policy_answer O E v.env offer
  Settled r (get_permitted v) = r ≡ file_answer O E v.env offer
  Settled r (get_located v path) =
      (path ≡ unicode (to_string_lossy offer.file_path)) × (r ≡ file_answer O E v.env offer)
  Settled r (get_done v r') = r' ≡ r
  Settled r (get_asked v) = ⊥
  Settled r (start_asked flow) = ⊥
  Settled r (start_seeding flow quads) = ⊥
  Settled r (start_admitted flow) = ⊥
  Settled r (start_done flow r') = ⊥
  Settled r (stop_asked flow) = ⊥
  Settled r (stop_done flow) = ⊥

  -- The steps of a request for the offer.
  module _ (env : Surroundings) (token : String) (g : ConfigGraph O)
      (reads : ReadsBack O M V g offer) where
    abbrev visit : Visit
    visit = record { env = env; dataset_id = offer.dataset_id; token = token }

    pub check-Settled :
        (w : World O)
        → Settled (offer_answer O E offer visit (lookup token w.tokens)) (check O visit w)
    check-Settled w = elim (Option-cases (lookup token w.tokens)) [
      | inl p ↦ rw (p, check, offer_answer) refl
      | inr (entry, p) ↦ elim (Bool-cases (entry.dataset_id == offer.dataset_id)) [
        | inl q ↦ rw (p, check, offer_answer, q) refl
        | inr q ↦ rw (p, check, offer_answer, q) refl
      ]
    ]

    pub permit-Settled : Settled (policy_answer O E env offer) (permit O E visit g)
    permit-Settled = elim (Result-cases (E.ingest_policy_value (offer_document offer))) [
      | inr (e, q) ↦ rw (reads.policy, q, permit, policy_answer) refl
      | inl (policy, q) ↦
          elim (WireDecision-cases
            (E.evaluate_request (engine_request O E env.now policy offer.dataset_id)).0) [
              | inr d ↦ rw (reads.policy, q, d, permit, policy_answer) refl
              | inl d ↦ rw (reads.policy, q, d, permit, policy_answer) refl
            ]
    ]

    pub locate-Settled : Settled (file_answer O E env offer) (locate O visit g)
    locate-Settled = rw (reads.path, locate) (refl, refl)

    pub deliver-Settled :
        deliver O visit (unicode (to_string_lossy offer.file_path)) g ≡ file_answer O E env offer
    unfolding to_string_lossy
    deliver-Settled = elim (Result-cases (env.read (unicode (to_string_lossy offer.file_path)))) [
      | inr (e, p) ↦ rw (p, deliver, file_answer)
      | inl (content, p) ↦ elim (Option-cases (env.header_error offer.media_type)) [
        | inl k ↦ rw (p, reads.media, k, deliver, file_answer, reads.media)
        | inr (e, k) ↦ rw (p, reads.media, k, deliver, file_answer)
      ]
    ]

  abbrev pub IsOther : Visit → Type 0
  IsOther v = v.dataset_id ≢ offer.dataset_id

  -- A request is for another dataset, or what it will be answered is decided.
  abbrev pub Decided : List (Moment O) → Visit → Task → Type 0
  Decided past v t = IsOther v ⊎ ((r : Response) × WasDecided O E offer v r past × Settled r t)

  abbrev pub Determined : List (Moment O) → Task → Type 0
  Determined past (get_checked v) = Decided past v (get_checked v)
  Determined past (get_permitted v) = Decided past v (get_permitted v)
  Determined past (get_located v path) = Decided past v (get_located v path)
  Determined past (get_done v r) = Decided past v (get_done v r)
  Determined past (get_asked v) = Unit
  Determined past (start_asked flow) = Unit
  Determined past (start_seeding flow quads) = Unit
  Determined past (start_admitted flow) = Unit
  Determined past (start_done flow r) = Unit
  Determined past (stop_asked flow) = Unit
  Determined past (stop_done flow) = Unit

  -- A request for the offer's dataset that is done was answered by what its token was worth at one
  -- moment.
  abbrev pub IsAnswered : List (Moment O) → Task → Type 0
  IsAnswered past (get_done v r) = IsOther v ⊎ WasDecided O E offer v r past
  IsAnswered past (get_asked v) = Unit
  IsAnswered past (get_checked v) = Unit
  IsAnswered past (get_permitted v) = Unit
  IsAnswered past (get_located v path) = Unit
  IsAnswered past (start_asked flow) = Unit
  IsAnswered past (start_seeding flow quads) = Unit
  IsAnswered past (start_admitted flow) = Unit
  IsAnswered past (start_done flow r) = Unit
  IsAnswered past (stop_asked flow) = Unit
  IsAnswered past (stop_done flow) = Unit

  pub Determined-IsAnswered :
      (past : List (Moment O)) (t : Task) → Determined past t → IsAnswered past t
  Determined-IsAnswered past (get_done v r) (inl other) = inl other
  Determined-IsAnswered past (get_done v r) (inr (r', decided, same)) =
      inr (subst (λ x. WasDecided O E offer v x past) (sym same) decided)
  Determined-IsAnswered past (get_asked v) d = tt
  Determined-IsAnswered past (get_checked v) d = tt
  Determined-IsAnswered past (get_permitted v) d = tt
  Determined-IsAnswered past (get_located v path) d = tt
  Determined-IsAnswered past (start_asked flow) d = tt
  Determined-IsAnswered past (start_seeding flow quads) d = tt
  Determined-IsAnswered past (start_admitted flow) d = tt
  Determined-IsAnswered past (start_done flow r) d = tt
  Determined-IsAnswered past (stop_asked flow) d = tt
  Determined-IsAnswered past (stop_done flow) d = tt
