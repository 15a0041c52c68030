-- ===== src/ConfigGraph/Offers.antt =====
-- The configuration graph of config-graph/src/store.rs as a map from dataset ids to offers.
use ds_sql_dps_rs.Prelude.{
  String, false, Option, none, some, ◌≡◌, ◌≢◌, sym, subst, List, [], ◌∷◌, All, All-map, All-both,
  Result, ok, err, ◌==◌, eq_iff, if◌then◌else◌, arith, Bool-cases, Option-cases, inl, inr,
}
use ds_sql_dps_rs.Oxigraph.{Oxigraph, IsInMemory}
use ds_sql_dps_rs.ConfigGraph.Offer.{unicode, to_string_lossy, FileOffer}
use ds_sql_dps_rs.ConfigGraph.Store.{
  ConfigGraph, ConfigGraphError, not_found, open_in_memory, file_path, media_type,
}
use ds_sql_dps_rs.ConfigGraph.Policy.{policy_jsonld}
use ds_sql_dps_rs.ConfigGraph.Seed.Quads.{IsVocabulary, IsDatasetId}
use ds_sql_dps_rs.ConfigGraph.ReadBack.{offer_document}
use ds_sql_dps_rs.ConfigGraph.RoundTrip.{IsApart, History, opened, ReadsBack}
use ds_sql_dps_rs.ConfigGraph.RoundTrip.Laws.{History-ReadsBack, seed_offer-total}
use ds_sql_dps_rs.ConfigGraph.RoundTrip.Absent.{IsAbsent, History-IsAbsent}
use ds_sql_dps_rs.ConfigGraph.Ids.{has_hash, plain-IsApart}

unfoldable pub find_offer : String → List FileOffer → Option FileOffer
find_offer id [] = none
find_offer id (o ∷ os) = if o.dataset_id == id then some o else find_offer id os

find_offer-none :
    (id : String) (os : List FileOffer) → find_offer id os ≡ none → All (λ o. o.dataset_id ≢ id) os
unfolding find_offer
find_offer-none id [] h = tt
find_offer-none id (o ∷ os) h = (
  λ e. ground (arith, h, (eq_iff o.dataset_id id).1 e),
  find_offer-none id os (ground (arith, h)),
)

find_offer-some {κ} :
    (P : FileOffer → Type κ) (id : String) (os : List FileOffer) (o : FileOffer)
    → find_offer id os ≡ some o
    → All P os
    → (o.dataset_id ≡ id) × P o
unfolding find_offer
find_offer-some P id [] o h a = absurd (ground (arith))
find_offer-some P id (x ∷ os) o h a = elim (Bool-cases (x.dataset_id == id)) [
  | inl e ↦
      let same : x ≡ o = ground (arith, h, e) in
      subst (λ y. (y.dataset_id ≡ id) × P y) same ((eq_iff x.dataset_id id).0 e, a.0)
  | inr e ↦ find_offer-some P id os o (ground (arith, h, e)) a.1
]

-- A read of the map.
abbrev pub read_offer {ℓ} :
    {A : Type ℓ} → (FileOffer → A) → String → Option FileOffer → Result ConfigGraphError A
read_offer f id none = err (not_found id)
read_offer f id (some o) = ok (f o)

-- An id without a `#` is apart from all others like it.
pub plain-All-IsApart :
    (id : String) (os : List FileOffer)
    → has_hash id ≡ false
    → All (λ o. has_hash o.dataset_id ≡ false) os
    → All (λ o. o.dataset_id ≢ id) os
    → All (λ o. IsApart id o.dataset_id × IsApart o.dataset_id id) os
plain-All-IsApart id os plain all ne =
    All-map (λ o. (o.dataset_id ≢ id) × (has_hash o.dataset_id ≡ false))
      (λ o. IsApart id o.dataset_id × IsApart o.dataset_id id)
      (λ o p. (
        plain-IsApart id o.dataset_id (λ e. p.0 (sym e)) plain p.1,
        plain-IsApart o.dataset_id id p.0 p.1 plain,
      ))
      os (All-both (λ o. o.dataset_id ≢ id) (λ o. has_hash o.dataset_id ≡ false) os ne all)

module _ (O : Oxigraph) (M : IsInMemory O) (V : IsVocabulary O) where
  -- The reads of one dataset are those of the map.
  pub record ReadsAs (w : ConfigGraph O) (offers : List FileOffer) (id : String) : Type 0 where
    pub path :
        file_path O id w
        ≡ read_offer (λ o. unicode (to_string_lossy o.file_path)) id (find_offer id offers)
    pub media : media_type O id w ≡ read_offer (λ o. o.media_type) id (find_offer id offers)
    pub policy : policy_jsonld O id w ≡ read_offer offer_document id (find_offer id offers)

  -- On an in-memory store that takes the vocabulary's IRIs, after any history of seeding offers
  -- under ids without a `#`: the graph is read as the map from ids to offers, for each valid id
  -- without a `#`, seeded or not.
  pub History-ReadsAs :
      {w : ConfigGraph O} {offers : List FileOffer} (id : String)
      → History O M V w offers
      → All (λ o. has_hash o.dataset_id ≡ false) offers
      → IsDatasetId O id
      → has_hash id ≡ false
      → ReadsAs w offers id
  History-ReadsAs {w} {offers} id history all D plain = elim (Option-cases (find_offer id offers)) [
    | inl e ↦
        let a : IsAbsent O M V w id = History-IsAbsent O M V id history D (
          All-map _ _ (λ o p. p.1) offers
            (plain-All-IsApart id offers plain all (find_offer-none id offers e))) in
        record { path = rw e a.path; media = rw e a.media; policy = rw e a.policy }
    | inr (o, e) ↦
        let (same, r) =
          find_offer-some (ReadsBack O M V w) id offers o e (History-ReadsBack O M V history) in
        record {
          path = rw (e, sym same) r.path;
          media = rw (e, sym same) r.media;
          policy = rw (e, sym same) r.policy;
        }
  ]

  -- Offers under valid ids without a `#`, all different.
  abbrev pub IsSeedable : List FileOffer → Type 0
  IsSeedable [] = Unit
  IsSeedable (o ∷ os) =
      IsDatasetId O o.dataset_id
      × (has_hash o.dataset_id ≡ false)
      × All (λ p. p.dataset_id ≢ o.dataset_id) os
      × IsSeedable os

  IsSeedable-plain :
      (os : List FileOffer) → IsSeedable os → All (λ o. has_hash o.dataset_id ≡ false) os
  IsSeedable-plain [] h = tt
  IsSeedable-plain (o ∷ os) h = (h.1, IsSeedable-plain os h.3)

  -- On an in-memory store that takes the vocabulary's IRIs, any list of offers under valid ids
  -- without a `#`, all different, can be seeded in turn into a new graph, without an error.
  pub seed_all-total :
      (os : List FileOffer) → IsSeedable os → (w : ConfigGraph O) × History O M V w os
  unfolding open_in_memory
  seed_all-total [] h =
      let (s, new, holds) = M.new_lem in
      (record { store = s; blanks = 0 }, opened (rw (new, open_in_memory)))
  seed_all-total (o ∷ os) h =
      let (w, history) = seed_all-total os h.3 in
      let (w', done, history') =
        seed_offer-total O M V o history h.0
          (plain-All-IsApart o.dataset_id os h.1 (IsSeedable-plain os h.3) h.2) in
      (w', history')
