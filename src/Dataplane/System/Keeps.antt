-- ===== src/Dataplane/System/Keeps.antt =====
-- Every call keeps the invariant of the data plane.
use ds_sql_dps_rs.Prelude.{
  String, ℕ, true, false, ◌≡◌, refl, ap, sym, ◌∙◌, subst, List, [], ◌∷◌, ◌++◌, All, All-map, ok,
  err, eq_refl, arith, Bool-cases, inl, inr,
}
use ds_sql_dps_rs.Oxigraph.{Oxigraph, IsInMemory}
use ds_sql_dps_rs.ConfigGraph.Offer.{FileOffer, unicode, to_string_lossy}
use ds_sql_dps_rs.ConfigGraph.Store.{ConfigGraph, file_path, not_found}
use ds_sql_dps_rs.ConfigGraph.Seed.Quads.{IsVocabulary}
use ds_sql_dps_rs.ConfigGraph.RoundTrip.{History}
use ds_sql_dps_rs.ConfigGraph.RoundTrip.Laws.{History-ReadsBack, seed_offer-total}
use ds_sql_dps_rs.ConfigGraph.RoundTrip.Absent.{History-IsAbsent}
use ds_sql_dps_rs.ConfigGraph.Ids.{has_hash}
use ds_sql_dps_rs.ConfigGraph.Offers.{plain-All-IsApart}
use ds_sql_dps_rs.Dataplane.Tokens.{issue, revoke_flow}
use ds_sql_dps_rs.Dataplane.Tokens.Laws.{run}
use ds_sql_dps_rs.Dataplane.Handler.{
  World, DataFlow, FileOfferHandler, auto_offer, admit, on_start, on_terminate,
}
use ds_sql_dps_rs.Dataplane.Handler.Admission.{
  admit-known, admit-refused, admit-seeded, issued_world, on_start-admitted, on_start-refused,
}
use ds_sql_dps_rs.Dataplane.System.{
  Call, asks, starts, prepares, terminates, confirms, suspends, apply, execute, accepts, token_ops,
  offer_under,
}
use ds_sql_dps_rs.Dataplane.System.Good.{
  offers_have, offers_have-All, offers_have-ne, IsBacked, All-insert, All-retain_other, Good,
  IsValidFlow, IsValidCall,
}

module _ (O : Oxigraph) (M : IsInMemory O) (V : IsVocabulary O) (uuid : ℕ → String)
    (h : FileOfferHandler) where
  same_ops :
      (w : World O) (cs ds : List Call)
      → token_ops h ds ≡ token_ops h cs
      → Good O M V uuid h w cs
      → Good O M V uuid h w ds
  same_ops w cs ds e g = record {
    offers = g.offers;
    history = g.history;
    plain = g.plain;
    ours = g.ours;
    later = g.later;
    split = g.split;
    only = g.only;
    tokens = g.tokens ∙ ap (run uuid) (sym e);
    backed = g.backed;
  }

  -- A start that is admitted to a graph with the dataset.
  issued-Good :
      (flow : DataFlow) (w : World O) (cs : List Call) (g : ConfigGraph O)
      (os later : List FileOffer)
      → History O M V g os
      → All (λ o. has_hash o.dataset_id ≡ false) os
      → All (λ o. o ≡ offer_under h o.dataset_id) os
      → os ≡ later ++ (h.default_offer ∷ [])
      → (h.tck_mode ≡ false → os ≡ h.default_offer ∷ [])
      → w.tokens ≡ run uuid (token_ops h cs)
      → All (IsBacked os) w.tokens.tokens
      → offers_have flow.dataset_id os ≡ true
      → accepts h flow.dataset_id ≡ true
      → Good O M V uuid h (issued_world O h flow uuid w g) (starts flow ∷ cs)
  unfolding token_ops run issue
  issued-Good flow w cs g os later history plain ours split only tokens backed known accepted =
      record {
        offers = os;
        history = history;
        plain = plain;
        ours = ours;
        later = later;
        split = split;
        only = only;
        tokens = rw accepted (ap (λ s. (issue uuid flow.id flow.dataset_id s).1) tokens);
        backed = All-insert os _ _ w.tokens.tokens known backed;
      }

  known-accepted :
      (w : World O) (cs : List Call) (id : String) (g : Good O M V uuid h w cs)
      → offers_have id g.offers ≡ true
      → accepts h id ≡ true
  unfolding offers_have
  known-accepted w cs id g known = elim (Bool-cases h.tck_mode) [
    | inl e ↦ rw e
    | inr e ↦ ground (arith, e, rw (g.only e) at known)
  ]

  pub new-refused :
      (w : World O) (cs : List Call) (id : String) (g : Good O M V uuid h w cs)
      → offers_have id g.offers ≡ false
      → h.tck_mode ≡ false
      → accepts h id ≡ false
  unfolding offers_have
  new-refused w cs id g new e = ground (arith, e, rw (g.only e) at new)

  -- A dataset of the offers is admitted.
  pub known-admitted :
      (flow : DataFlow) (w : World O) (cs : List Call) (g : Good O M V uuid h w cs)
      → offers_have flow.dataset_id g.offers ≡ true
      → admit O h flow w.graph ≡ (ok tt, w.graph)
  known-admitted flow w cs g known =
      let (o, same, reads) =
        offers_have-All flow.dataset_id g.offers known (History-ReadsBack O M V g.history) in
      admit-known O h flow w.graph _ (
        subst (λ i. file_path O i w.graph ≡ ok (unicode (to_string_lossy o.file_path))) same
          reads.path)

  start_known-Good :
      (flow : DataFlow) (w : World O) (cs : List Call) (g : Good O M V uuid h w cs)
      → offers_have flow.dataset_id g.offers ≡ true
      → Good O M V uuid h (on_start O uuid h flow w).1 (starts flow ∷ cs)
  start_known-Good flow w cs g known =
      subst (λ x. Good O M V uuid h x (starts flow ∷ cs))
        (ap (λ r. r.1)
          (sym (on_start-admitted O h flow uuid w w.graph (known-admitted flow w cs g known))))
        (issued-Good flow w cs w.graph g.offers g.later g.history g.plain g.ours g.split g.only
          g.tokens g.backed known (known-accepted w cs flow.dataset_id g known))

  module _ (flow : DataFlow) (w : World O) (cs : List Call) (valid : IsValidFlow O flow)
      (g : Good O M V uuid h w cs) (new : offers_have flow.dataset_id g.offers ≡ false) where
    absent : file_path O flow.dataset_id w.graph ≡ err (not_found flow.dataset_id)
    absent =
        (History-IsAbsent O M V flow.dataset_id g.history valid.0 (
          All-map _ _ (λ o a. a.1) g.offers
            (plain-All-IsApart flow.dataset_id g.offers valid.1 g.plain
              (offers_have-ne flow.dataset_id g.offers new)))).path

    start_refused-Good :
        h.tck_mode ≡ false → Good O M V uuid h (on_start O uuid h flow w).1 (starts flow ∷ cs)
    unfolding token_ops
    start_refused-Good e =
        let refused = admit-refused O h flow w.graph _ absent e in
        subst (λ x. Good O M V uuid h x (starts flow ∷ cs))
          (ap (λ r. r.1) (sym (on_start-refused O h flow uuid w _ refused)))
          (same_ops w cs (starts flow ∷ cs) (rw (new-refused w cs flow.dataset_id g new e)) g)

    -- In TCK mode, another dataset is seeded and admitted.
    pub seeded-admitted :
        h.tck_mode ≡ true
        → (g' : ConfigGraph O) × (admit O h flow w.graph ≡ (ok tt, g'))
          × History O M V g' (auto_offer O h flow ∷ g.offers)
    seeded-admitted e =
        let apart =
          plain-All-IsApart flow.dataset_id g.offers valid.1 g.plain
            (offers_have-ne flow.dataset_id g.offers new) in
        let (g', seeded, history) =
          seed_offer-total O M V (auto_offer O h flow) g.history valid.0 apart in
        (g', admit-seeded O h flow w.graph g' _ absent e seeded, history)

    start_seeded-Good :
        h.tck_mode ≡ true → Good O M V uuid h (on_start O uuid h flow w).1 (starts flow ∷ cs)
    unfolding offers_have
    start_seeded-Good e =
        let (g', admitted, history) = seeded-admitted e in
        subst (λ x. Good O M V uuid h x (starts flow ∷ cs))
          (ap (λ r. r.1) (sym (on_start-admitted O h flow uuid w g' admitted)))
          (issued-Good flow w cs g' (auto_offer O h flow ∷ g.offers) (auto_offer O h flow ∷ g.later)
            history (valid.1, g.plain) (refl, g.ours) (ap (λ l. auto_offer O h flow ∷ l) g.split)
            (λ f. cc (e, f)) g.tokens
            (All-map (IsBacked g.offers) (IsBacked (auto_offer O h flow ∷ g.offers))
              (λ x b. ground (arith, b)) w.tokens.tokens g.backed)
            (ground (arith, eq_refl flow.dataset_id)) (rw e))

  start-Good :
      (flow : DataFlow) (w : World O) (cs : List Call)
      → IsValidFlow O flow
      → Good O M V uuid h w cs
      → Good O M V uuid h (on_start O uuid h flow w).1 (starts flow ∷ cs)
  start-Good flow w cs valid g = elim (Bool-cases (offers_have flow.dataset_id g.offers)) [
    | inl known ↦ start_known-Good flow w cs g known
    | inr new ↦ elim (Bool-cases h.tck_mode) [
      | inl e ↦ start_seeded-Good flow w cs valid g new e
      | inr e ↦ start_refused-Good flow w cs valid g new e
    ]
  ]

  -- Every call keeps the invariant.
  pub apply-Good :
      (c : Call) (w : World O) (cs : List Call)
      → IsValidCall O c
      → Good O M V uuid h w cs
      → Good O M V uuid h (apply O uuid h c w) (c ∷ cs)
  unfolding apply token_ops
  apply-Good (starts flow) w cs valid g = start-Good flow w cs valid g
  apply-Good (terminates flow) w cs valid g =
      unfold on_terminate revoke_flow run in
      record {
        offers = g.offers;
        history = g.history;
        plain = g.plain;
        ours = g.ours;
        later = g.later;
        split = g.split;
        only = g.only;
        tokens = ap (revoke_flow flow.id) g.tokens;
        backed = All-retain_other g.offers flow.id w.tokens.tokens g.backed;
      }
  apply-Good (asks flow) w cs valid g = same_ops w cs (asks flow ∷ cs) refl g
  apply-Good (prepares flow) w cs valid g = same_ops w cs (prepares flow ∷ cs) refl g
  apply-Good (confirms flow) w cs valid g = same_ops w cs (confirms flow ∷ cs) refl g
  apply-Good (suspends flow) w cs valid g = same_ops w cs (suspends flow ∷ cs) refl g

  -- So every sequence of calls does.
  pub execute-Good :
      (w : World O) (cs : List Call)
      → All (IsValidCall O) cs
      → Good O M V uuid h w []
      → Good O M V uuid h (execute O uuid h w cs) cs
  unfolding execute
  execute-Good w [] valid g = g
  execute-Good w (c ∷ cs) valid g =
      apply-Good c (execute O uuid h w cs) cs valid.0 (execute-Good w cs valid.1 g)
