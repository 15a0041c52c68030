-- ===== src/Dataplane/System/Good.antt =====
-- The invariant of the data plane between two calls.
use ds_sql_dps_rs.Prelude.{
  String, ℕ, Bool, true, false, some, ◌≡◌, ◌≢◌, List, [], ◌∷◌, ◌++◌, All, ◌==◌, ◌||◌, eq_iff, arith,
  Bool-cases, inl, inr,
}
use ds_sql_dps_rs.Oxigraph.{Oxigraph, IsInMemory}
use ds_sql_dps_rs.ConfigGraph.Offer.{FileOffer}
use ds_sql_dps_rs.ConfigGraph.Seed.Quads.{IsVocabulary, IsDatasetId}
use ds_sql_dps_rs.ConfigGraph.RoundTrip.{History}
use ds_sql_dps_rs.ConfigGraph.Ids.{has_hash}
use ds_sql_dps_rs.Dataplane.Tokens.{TokenRecord, insert, retain_other, find}
use ds_sql_dps_rs.Dataplane.Tokens.Laws.{run}
use ds_sql_dps_rs.Dataplane.Handler.{World, DataFlow, FileOfferHandler}
use ds_sql_dps_rs.Dataplane.System.{
  Call, asks, starts, prepares, terminates, confirms, suspends, token_ops, offer_under,
}

-- Whether one of the offers is of the dataset.
unfoldable pub offers_have : String → List FileOffer → Bool
offers_have id [] = false
offers_have id (o ∷ os) = o.dataset_id == id || offers_have id os

pub offers_have-All {κ} :
    {P : FileOffer → Type κ} (id : String) (os : List FileOffer)
    → offers_have id os ≡ true
    → All P os
    → (o : FileOffer) × (o.dataset_id ≡ id) × P o
unfolding offers_have
offers_have-All id [] h a = absurd (ground (arith))
offers_have-All id (o ∷ os) h a = elim (Bool-cases (o.dataset_id == id)) [
  | inl e ↦ (o, (eq_iff o.dataset_id id).0 e, a.0)
  | inr e ↦ offers_have-All id os (ground (arith, h, e)) a.1
]

pub offers_have-ne :
    (id : String) (os : List FileOffer)
    → offers_have id os ≡ false
    → All (λ o. o.dataset_id ≢ id) os
unfolding offers_have
offers_have-ne id [] h = tt
offers_have-ne id (o ∷ os) h =
    (λ e. cc (h, (eq_iff o.dataset_id id).1 e), offers_have-ne id os (ground (arith, h)))

-- Every token is worth a dataset of the offers.
abbrev pub IsBacked : List FileOffer → String × TokenRecord → Type 0
IsBacked os e = offers_have e.1.dataset_id os ≡ true

pub All-insert :
    (os : List FileOffer) (k : String) (entry : TokenRecord) (m : List (String × TokenRecord))
    → offers_have entry.dataset_id os ≡ true
    → All (IsBacked os) m
    → All (IsBacked os) (insert k entry m)
unfolding insert
All-insert os k entry [] h a = (h, tt)
All-insert os k entry ((j, old) ∷ m) h a = elim (Bool-cases (j == k)) [
  | inl e ↦ rw e (h, a.1)
  | inr e ↦ rw e (a.0, All-insert os k entry m h a.1)
]

pub All-retain_other :
    (os : List FileOffer) (flow_id : String) (m : List (String × TokenRecord))
    → All (IsBacked os) m
    → All (IsBacked os) (retain_other flow_id m)
unfolding retain_other
All-retain_other os flow_id [] a = tt
All-retain_other os flow_id ((j, old) ∷ m) a = elim (Bool-cases (old.flow_id == flow_id)) [
  | inl e ↦ rw e (All-retain_other os flow_id m a.1)
  | inr e ↦ rw e (a.0, All-retain_other os flow_id m a.1)
]

pub All-find :
    (os : List FileOffer) (token : String) (entry : TokenRecord) (m : List (String × TokenRecord))
    → All (IsBacked os) m
    → find token m ≡ some entry
    → offers_have entry.dataset_id os ≡ true
unfolding find
All-find os token entry [] a h = absurd (ground (arith))
All-find os token entry ((j, old) ∷ m) a h = elim (Bool-cases (j == token)) [
  | inl e ↦ ground (arith, h, e, a.0)
  | inr e ↦ All-find os token entry m a.1 (ground (arith, h, e))
]

module _ (O : Oxigraph) where
  -- The dataset id of a call makes valid IRIs, and has no `#`.
  abbrev pub IsValidFlow : DataFlow → Type 0
  IsValidFlow flow = IsDatasetId O flow.dataset_id × (has_hash flow.dataset_id ≡ false)

  abbrev pub IsValidCall : Call → Type 0
  IsValidCall (starts flow) = IsValidFlow flow
  IsValidCall (asks flow) = Unit
  IsValidCall (prepares flow) = Unit
  IsValidCall (terminates flow) = Unit
  IsValidCall (confirms flow) = Unit
  IsValidCall (suspends flow) = Unit

module _ (O : Oxigraph) (M : IsInMemory O) (V : IsVocabulary O) (uuid : ℕ → String)
    (h : FileOfferHandler) where
  -- The graph is a history of seedings of offers of the handler, under ids without a `#`: the
  -- configured offer was seeded first, and outside TCK mode no other. The tokens are those of the
  -- calls, and each is worth a dataset of the graph.
  pub record Good (w : World O) (cs : List Call) : Type 0 where
    pub offers : List FileOffer
    pub history : History O M V w.graph offers
    pub plain : All (λ o. has_hash o.dataset_id ≡ false) offers
    pub ours : All (λ o. o ≡ offer_under h o.dataset_id) offers
    pub later : List FileOffer
    pub split : offers ≡ later ++ (h.default_offer ∷ [])
    pub only : h.tck_mode ≡ false → offers ≡ h.default_offer ∷ []
    pub tokens : w.tokens ≡ run uuid (token_ops h cs)
    pub backed : All (IsBacked offers) w.tokens.tokens
