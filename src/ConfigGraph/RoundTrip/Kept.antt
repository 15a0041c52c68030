-- ===== src/ConfigGraph/RoundTrip/Kept.antt =====
-- An offer reads back while the quads of others are inserted one by one, in any order.
use ds_sql_dps_rs.Prelude.{
  String, ℕ, ◌≤◌, ◌≡◌, ap, sym, ◌∙◌, subst, [], ◌∷◌, ◌++◌, All, All-append, All-both, ok,
  ok-injective, arith, Bool-cases, inl, inr,
}
use mathlib.Core.List.{append_assoc}
use ds_sql_dps_rs.Rdf.{Quad, Graph}
use ds_sql_dps_rs.Oxigraph.{Oxigraph, IsInMemory, has, add}
use ds_sql_dps_rs.ConfigGraph.Offer.{FileOffer}
use ds_sql_dps_rs.ConfigGraph.Store.{ConfigGraph}
use ds_sql_dps_rs.ConfigGraph.Seed.Quads.{IsVocabulary, next_node}
use ds_sql_dps_rs.ConfigGraph.Seed.Fresh.{Clear}
use ds_sql_dps_rs.ConfigGraph.Seed.Facts.{IsAboveTerm}
use ds_sql_dps_rs.ConfigGraph.Seed.Nodes.{IsAbove-mono}
use ds_sql_dps_rs.ConfigGraph.Seed.HasOffer.{offer_graph}
use ds_sql_dps_rs.ConfigGraph.RoundTrip.{IsApart, ReadsBack}
use ds_sql_dps_rs.ConfigGraph.RoundTrip.Holding.{
  Holding, Holding-ReadsBack, offer_graph-IsClear, offer_graph-IsAbove,
}

module _ (O : Oxigraph) (M : IsInMemory O) (V : IsVocabulary O) where
  -- The quad is about no IRI of the dataset and about no blank node before the `floor`-th.
  abbrev pub Harmless : ℕ → String → Quad → Type 0
  Harmless floor id q = Clear O M.blank_injective id q × IsAboveTerm O floor q.subject

  -- The store holds the quads of the offer, whose blank nodes are before the `floor`-th.
  pub record Kept (floor : ℕ) (offer : FileOffer) (w : ConfigGraph O) : Type 0 where
    pub g : Graph
    pub holds : M.Holds w.store g
    pub holding : Holding O M V w.blanks g offer
    pub floor_at : next_node O holding.k offer.permissions ≡ floor

  pub Kept-ReadsBack :
      (floor : ℕ) (offer : FileOffer) (w : ConfigGraph O)
      → Kept floor offer w
      → ReadsBack O M V w offer
  Kept-ReadsBack floor offer w h = Holding-ReadsBack O M V w w.blanks h.g offer h.holds h.holding

  -- New blank nodes alone change nothing.
  pub Kept-blanks :
      (floor n : ℕ) (offer : FileOffer) (w : ConfigGraph O)
      → Kept floor offer w
      → w.blanks ≤ n
      → Kept floor offer (record { store = w.store; blanks = n })
  Kept-blanks floor n offer w h up = record {
    g = h.g;
    holds = h.holds;
    holding = record {
      valid = h.holding.valid;
      k = h.holding.k;
      pre = h.holding.pre;
      post = h.holding.post;
      split = h.holding.split;
      below = h.holding.below;
      clear_pre = h.holding.clear_pre;
      clear_post = h.holding.clear_post;
      above = h.holding.above;
      room = omega (arith, h.holding.room, up);
    };
    floor_at = h.floor_at;
  }

  append-Kept :
      (floor : ℕ) (offer : FileOffer) (w : ConfigGraph O) (q : Quad) (s : O.Store)
      → (h : Kept floor offer w) → Harmless floor offer.dataset_id q
      → M.Holds s (h.g ++ (q ∷ []))
      → Kept floor offer (record { store = s; blanks = w.blanks })
  append-Kept floor offer w q s h (clear, above) holds =
      let o = h.holding in
      record {
        g = h.g ++ (q ∷ []);
        holds = holds;
        holding = record {
          valid = o.valid;
          k = o.k;
          pre = o.pre;
          post = o.post ++ (q ∷ []);
          split =
              ap (λ t. t ++ (q ∷ [])) o.split
              ∙ append_assoc o.pre (offer_graph O o.k offer ++ o.post) (q ∷ [])
              ∙ ap (λ t. o.pre ++ t) (append_assoc (offer_graph O o.k offer) o.post (q ∷ []));
          below = o.below;
          clear_pre = o.clear_pre;
          clear_post =
              All-append (Clear O M.blank_injective offer.dataset_id) o.post (q ∷ []) o.clear_post
                (clear, tt);
          above =
              All-append (λ x. IsAboveTerm O (next_node O o.k offer.permissions) x.subject) o.post
                (q ∷ []) o.above
                (subst (λ n. IsAboveTerm O n q.subject) (sym h.floor_at) above, tt);
          room = o.room;
        };
        floor_at = h.floor_at;
      }

  -- One insertion of a harmless quad.
  pub insert-Kept :
      (floor : ℕ) (offer : FileOffer) (w : ConfigGraph O) (q : Quad) (s : O.Store)
      → Kept floor offer w
      → Harmless floor offer.dataset_id q
      → O.insert w.store q ≡ ok s
      → Kept floor offer (record { store = s; blanks = w.blanks })
  unfolding add
  insert-Kept floor offer w q s h harmless inserted =
      let (s1, e1, h1) = M.insert_lem w.store h.g q h.holds in
      let same : s1 ≡ s = ok-injective (sym e1 ∙ inserted) in
      let holds : M.Holds s (add h.g q) = subst (λ x. M.Holds x (add h.g q)) same h1 in
      elim (Bool-cases (has q h.g)) [
        | inl old ↦
            let unchanged : add h.g q ≡ h.g = rw (add, old) in
            record {
              g = h.g;
              holds = subst (M.Holds s) unchanged holds;
              holding = h.holding;
              floor_at = h.floor_at;
            }
        | inr new ↦
            let appended : add h.g q ≡ h.g ++ (q ∷ []) = rw (add, new) in
            append-Kept floor offer w q s h harmless (subst (M.Holds s) appended holds)
      ]

  -- The quads of a dataset apart, with blank nodes that are made now, are harmless.
  pub offer_graph-Harmless :
      (floor : ℕ) (offer new : FileOffer) (w : ConfigGraph O)
      → Kept floor offer w
      → IsApart new.dataset_id offer.dataset_id
      → All (Harmless floor offer.dataset_id) (offer_graph O w.blanks new)
  offer_graph-Harmless floor offer new w h apart =
      All-both (Clear O M.blank_injective offer.dataset_id) (λ q. IsAboveTerm O floor q.subject)
        (offer_graph O w.blanks new) (offer_graph-IsClear O M V offer.dataset_id w.blanks new apart)
        (IsAbove-mono O M.blank_injective floor w.blanks (offer_graph O w.blanks new)
          (omega (arith, h.holding.room, h.floor_at)) (offer_graph-IsAbove O M V w.blanks new))
