-- ===== src/ConfigGraph/RoundTrip/Laws.antt =====
-- Every offer that was seeded into an in-memory graph reads back, whatever was seeded after it.
use ds_sql_dps_rs.Prelude.{
  String, ◌≤◌, ◌≡◌, ap, sym, ◌∙◌, subst, List, [], ◌∷◌, ◌++◌, All, All-append, All-map, All-both,
  ok-injective, ok, arith,
}
use mathlib.Core.List.{append-nil}
use ds_sql_dps_rs.Rdf.{Graph}
use ds_sql_dps_rs.Oxigraph.{Oxigraph, IsInMemory}
use ds_sql_dps_rs.ConfigGraph.Offer.{FileOffer}
use ds_sql_dps_rs.ConfigGraph.Store.{ConfigGraph, open_in_memory}
use ds_sql_dps_rs.ConfigGraph.Seed.{seed_offer}
use ds_sql_dps_rs.ConfigGraph.Seed.Quads.{IsVocabulary, IsDatasetId}
use ds_sql_dps_rs.ConfigGraph.Seed.Below.{next_node-ge}
use ds_sql_dps_rs.ConfigGraph.Seed.Fresh.{Clear, IsClear}
use ds_sql_dps_rs.ConfigGraph.Seed.HasOffer.{offer_graph}
use ds_sql_dps_rs.ConfigGraph.Seed.Laws.{Stores, seed_offer-Stores}
use ds_sql_dps_rs.ConfigGraph.RoundTrip.{IsApart, History, opened, seeded, ReadsBack}
use ds_sql_dps_rs.ConfigGraph.RoundTrip.Holding.{
  Holding, Holding-ReadsBack, Holding-extend, offer_graph-IsClear,
}

module _ (O : Oxigraph) (M : IsInMemory O) (V : IsVocabulary O) where
  pub record Invariant (w : ConfigGraph O) (offers : List FileOffer) : Type 0 where
    pub g : Graph
    pub stores : Stores O M w g
    pub holding : All (Holding O M V w.blanks g) offers
    pub clear :
        (id : String) → All (λ o. IsApart o.dataset_id id) offers → IsClear O M.blank_injective id g

  opened-Invariant : (w : ConfigGraph O) → open_in_memory O ≡ ok w → Invariant w []
  unfolding open_in_memory
  opened-Invariant w e =
      let (s, new, holds) = M.new_lem in
      let start : open_in_memory O ≡ ok (record { store = s; blanks = 0 }) =
        rw (new, open_in_memory) in
      subst (λ x. Invariant x []) (ok-injective (sym start ∙ e))
        (record {
          g = [];
          stores = record { holds = holds; below = tt };
          holding = tt;
          clear = λ id a. tt;
        })

  seeded-Invariant :
      (w w' : ConfigGraph O) (offers : List FileOffer) (offer : FileOffer)
      → Invariant w offers
      → IsDatasetId O offer.dataset_id
      → All
          (λ o. IsApart offer.dataset_id o.dataset_id × IsApart o.dataset_id offer.dataset_id)
          offers
      → seed_offer O offer w ≡ (ok tt, w')
      → Invariant w' (offer ∷ offers)
  seeded-Invariant w w' offers offer inv D apart e =
      let clear = inv.clear offer.dataset_id (All-map _ _ (λ o a. a.1) offers apart) in
      let (w1, e1, st, next) = seed_offer-Stores O M V offer w inv.g D inv.stores clear in
      let grown : w.blanks ≤ w1.blanks =
        rw next (next_node-ge O M.blank_injective w.blanks offer.permissions) in
      let more = offer_graph O w.blanks offer in
      subst (λ x. Invariant x (offer ∷ offers)) (ap (λ r. r.1) (sym e1 ∙ e))
        (record {
          g = inv.g ++ more;
          stores = st;
          holding = (
            record {
              valid = D;
              k = w.blanks;
              pre = inv.g;
              post = [];
              split = ap (λ t. inv.g ++ t) (sym (append-nil more));
              below = inv.stores.below;
              clear_pre = clear;
              clear_post = tt;
              above = tt;
              room = omega (arith, next);
            },
            All-map (λ o. Holding O M V w.blanks inv.g o × IsApart offer.dataset_id o.dataset_id)
                (Holding O M V w1.blanks (inv.g ++ more))
                (λ o h.
                  Holding-extend O M V w.blanks w1.blanks w.blanks inv.g o offer h.0 (omega arith)
                    grown h.1)
                offers
                (All-both (Holding O M V w.blanks inv.g)
                  (λ o. IsApart offer.dataset_id o.dataset_id) offers inv.holding
                  (All-map _ _ (λ o a. a.0) offers apart)),
          );
          clear = λ id a.
              All-append (Clear O M.blank_injective id) inv.g more (inv.clear id a.1)
                (offer_graph-IsClear O M V id w.blanks offer a.0);
        })

  pub History-Invariant :
      {w : ConfigGraph O} {offers : List FileOffer} → History O M V w offers → Invariant w offers
  History-Invariant (opened {w} e) = opened-Invariant w e
  History-Invariant (seeded {w} {w'} {offers} offer h D apart e) =
      seeded-Invariant w w' offers offer (History-Invariant h) D apart e

  -- On an in-memory store that takes the vocabulary's IRIs: after any history of seeding offers
  -- with valid dataset ids, all apart, every offer reads back: its path (as its lossy text), its
  -- media type and its policy, with permissions and constraints in the offer's order.
  pub History-ReadsBack :
      {w : ConfigGraph O} {offers : List FileOffer}
      → History O M V w offers
      → All (ReadsBack O M V w) offers
  History-ReadsBack {w} {offers} h =
      let inv = History-Invariant h in
      All-map (Holding O M V w.blanks inv.g) (ReadsBack O M V w)
        (λ o x. Holding-ReadsBack O M V w w.blanks inv.g o inv.stores.holds x) offers inv.holding

  -- On an in-memory store that takes the vocabulary's IRIs, seeding an offer with a valid dataset id,
  -- apart from all that were seeded, succeeds and continues the history.
  pub seed_offer-total :
      {w : ConfigGraph O} {offers : List FileOffer} (offer : FileOffer)
      → History O M V w offers
      → IsDatasetId O offer.dataset_id
      → All
          (λ o. IsApart offer.dataset_id o.dataset_id × IsApart o.dataset_id offer.dataset_id)
          offers
      → (w' : ConfigGraph O) × (seed_offer O offer w ≡ (ok tt, w'))
        × History O M V w' (offer ∷ offers)
  seed_offer-total {w} {offers} offer h D apart =
      let inv = History-Invariant h in
      let clear = inv.clear offer.dataset_id (All-map _ _ (λ o a. a.1) offers apart) in
      let (w1, e1, st, next) = seed_offer-Stores O M V offer w inv.g D inv.stores clear in
      (w1, e1, seeded offer h D apart e1)
