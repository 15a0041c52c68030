-- ===== src/ConfigGraph/RoundTrip/Holding.antt =====
-- Where the quads of one offer stand in a graph, and that later offers keep them there.
use ds_sql_dps_rs.Prelude.{
  String, ℕ, suc, ◌+◌, ◌≤◌, ◌≡◌, refl, ap, sym, ◌∙◌, subst, List, [], ◌∷◌, ◌++◌, length, All-append,
  arith,
}
use mathlib.Core.List.{append_assoc}
use ds_sql_dps_rs.Rdf.{term_eq, Graph}
use ds_sql_dps_rs.Oxigraph.{Oxigraph, IsInMemory}
use ds_sql_dps_rs.ConfigGraph.Offer.{FileOffer, PermissionSpec, ConstraintSpec}
use ds_sql_dps_rs.ConfigGraph.Store.{policy_iri, ConfigGraph}
use ds_sql_dps_rs.ConfigGraph.Seed.Quads.{
  IsVocabulary, IsDatasetId, header_graph, node, constraints_graph, permissions_graph, next_node,
}
use ds_sql_dps_rs.ConfigGraph.Seed.Below.{IsBelow}
use ds_sql_dps_rs.ConfigGraph.Seed.Fresh.{Clear, IsClear}
use ds_sql_dps_rs.ConfigGraph.Seed.Facts.{IsAbove, IsAboveTerm, permissions_graph-IsAbove}
use ds_sql_dps_rs.ConfigGraph.Seed.Nodes.{IsAbove-mono}
use ds_sql_dps_rs.ConfigGraph.Seed.HasOffer.{HasOffer, offer_graph, offer_graph-HasOffer}
use ds_sql_dps_rs.ConfigGraph.ReadBack.{
  file_path-HasOffer, media_type-HasOffer, policy_jsonld-HasOffer,
}
use ds_sql_dps_rs.ConfigGraph.RoundTrip.{NotOf, IsApart, ReadsBack}

module _ (O : Oxigraph) (M : IsInMemory O) (V : IsVocabulary O) where
  -- The quads of the offer stand in the graph, and no others speak of its IRIs.
  pub record Holding (n : ℕ) (g : Graph) (offer : FileOffer) : Type 0 where
    pub valid : IsDatasetId O offer.dataset_id
    pub k : ℕ
    pub pre : Graph
    pub post : Graph
    pub split : g ≡ pre ++ (offer_graph O k offer ++ post)
    pub below : IsBelow O M.blank_injective k pre
    pub clear_pre : IsClear O M.blank_injective offer.dataset_id pre
    pub clear_post : IsClear O M.blank_injective offer.dataset_id post
    pub above : IsAbove O (next_node O k offer.permissions) post
    pub room : next_node O k offer.permissions ≤ n

  pub Holding-ReadsBack :
      (w : ConfigGraph O) (n : ℕ) (g : Graph) (offer : FileOffer)
      → M.Holds w.store g
      → Holding n g offer
      → ReadsBack O M V w offer
  Holding-ReadsBack w n g offer holds h =
      let has : HasOffer O g h.k offer =
        subst (λ G. HasOffer O G h.k offer) (sym h.split)
          (offer_graph-HasOffer O M.blank_injective offer h.k h.pre h.post h.below h.clear_pre
            h.clear_post h.above) in
      record {
        path = file_path-HasOffer O M V w g h.k offer holds h.valid has;
        media = media_type-HasOffer O M V w g h.k offer holds h.valid has;
        policy = policy_jsonld-HasOffer O M V w g h.k offer holds h.valid has;
      }

  constraints_graph-IsClear :
      (id : String) (p : ℕ) (j k : ℕ) (cs : List ConstraintSpec)
      → IsClear O M.blank_injective id (constraints_graph O (node O p) j k cs)
  unfolding constraints_graph term_eq
  constraints_graph-IsClear id p j k [] = tt
  constraints_graph-IsClear id p j k (c ∷ cs) = (
    (refl, refl, refl),
    (
      (refl, refl, refl),
      (
        (refl, refl, refl),
        (
          (refl, refl, refl),
          ((refl, refl, refl), constraints_graph-IsClear id p (suc j) (suc k) cs),
        ),
      ),
    ),
  )

  permissions_graph-IsClear :
      (id policy : String) (i k : ℕ) (ps : List PermissionSpec)
      → NotOf id policy
      → IsClear O M.blank_injective id (permissions_graph O policy i k ps)
  unfolding permissions_graph term_eq
  permissions_graph-IsClear id policy i k [] h = tt
  permissions_graph-IsClear id policy i k (p ∷ ps) h = (
    (h.0, h.1, h.2),
    (
      (refl, refl, refl),
      (
        (refl, refl, refl),
        (
          (refl, refl, refl),
          All-append (Clear O M.blank_injective id)
              (constraints_graph O (node O k) 0 (suc k) p.constraints) _
              (constraints_graph-IsClear id k 0 (suc k) p.constraints)
              (permissions_graph-IsClear id policy (suc i) (length p.constraints + suc k) ps h),
        ),
      ),
    ),
  )

  -- The quads of one offer say nothing of a dataset apart.
  pub offer_graph-IsClear :
      (id : String) (k : ℕ) (offer : FileOffer)
      → IsApart offer.dataset_id id
      → IsClear O M.blank_injective id (offer_graph O k offer)
  unfolding offer_graph header_graph term_eq
  offer_graph-IsClear id k offer a = (
    a.dataset,
    (
      a.dataset,
      (
        a.dataset,
        (
          a.distribution,
          (
            a.distribution,
            (
              a.distribution,
              (
                a.policy,
                (
                  a.policy,
                  (
                    a.policy,
                    permissions_graph-IsClear id (policy_iri offer.dataset_id) 0 k offer.permissions
                        a.policy,
                  ),
                ),
              ),
            ),
          ),
        ),
      ),
    ),
  )

  pub offer_graph-IsAbove : (k : ℕ) (offer : FileOffer) → IsAbove O k (offer_graph O k offer)
  unfolding offer_graph header_graph
  offer_graph-IsAbove k offer = (
    tt,
    (
      tt,
      (
        tt,
        (
          tt,
          (
            tt,
            (
              tt,
              (
                tt,
                (
                  tt,
                  (
                    tt,
                    permissions_graph-IsAbove O k (policy_iri offer.dataset_id) 0 k
                        offer.permissions (omega arith),
                  ),
                ),
              ),
            ),
          ),
        ),
      ),
    ),
  )

  pub Holding-extend :
      (n m k : ℕ) (g : Graph) (offer new : FileOffer)
      → Holding n g offer
      → n ≤ k
      → n ≤ m
      → IsApart new.dataset_id offer.dataset_id
      → Holding m (g ++ offer_graph O k new) offer
  Holding-extend n m k g offer new h le up apart =
      let more = offer_graph O k new in
      record {
        valid = h.valid;
        k = h.k;
        pre = h.pre;
        post = h.post ++ more;
        split =
            ap (λ t. t ++ more) h.split
            ∙ append_assoc h.pre (offer_graph O h.k offer ++ h.post) more
            ∙ ap (λ t. h.pre ++ t) (append_assoc (offer_graph O h.k offer) h.post more);
        below = h.below;
        clear_pre = h.clear_pre;
        clear_post =
            All-append (Clear O M.blank_injective offer.dataset_id) h.post more h.clear_post
              (offer_graph-IsClear offer.dataset_id k new apart);
        above =
            All-append (λ q. IsAboveTerm O (next_node O h.k offer.permissions) q.subject) h.post
              more h.above
              (IsAbove-mono O M.blank_injective (next_node O h.k offer.permissions) k more
                (omega (arith, h.room)) (offer_graph-IsAbove k new));
        room = omega (arith, h.room);
      }
