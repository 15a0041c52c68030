-- ===== src/ConfigGraph/Seed/Laws.antt =====
-- `seed_offer` puts the quads of an offer into the store.
use ds_sql_dps_rs.Prelude.{ℕ, ◌≡◌, refl, ap, ◌∙◌, List, [], ◌∷◌, ◌++◌, ok, arith}
use mathlib.Core.List.{foldl, foldl-append, append_assoc}
use ds_sql_dps_rs.Rdf.{Quad, Graph}
use ds_sql_dps_rs.Oxigraph.{Oxigraph, IsInMemory, add}
use ds_sql_dps_rs.ConfigGraph.Offer.{FileOffer}
use ds_sql_dps_rs.ConfigGraph.Store.{policy_iri, ConfigGraph}
use ds_sql_dps_rs.ConfigGraph.Seed.{insert_quads, offer_quads, seed_offer}
use ds_sql_dps_rs.ConfigGraph.Seed.Quads.{
  IsVocabulary, IsDatasetId, header_graph, permissions_graph, next_node, offer_quads-ok,
}
use ds_sql_dps_rs.ConfigGraph.Seed.Below.{
  IsBelow, IsBelow-append, IsBelow-mono, permissions_graph-IsBelow, next_node-ge,
}
use ds_sql_dps_rs.ConfigGraph.Seed.Fresh.{IsClear, add_header, add_permissions}
use ds_sql_dps_rs.ConfigGraph.Seed.HasOffer.{offer_graph, header_graph-IsBelow}

module _ (O : Oxigraph) (M : IsInMemory O) where
  insert_quads-Holds :
      (s : O.Store) (g : Graph) (qs : List Quad)
      → M.Holds s g
      → (s' : O.Store) × (insert_quads O s qs ≡ (ok tt, s')) × M.Holds s' (foldl add g qs)
  unfolding insert_quads
  insert_quads-Holds s g [] h = (s, refl, h)
  insert_quads-Holds s g (q ∷ qs) h =
      let (s1, inserted, h1) = M.insert_lem s g q h in
      let (s2, rest, h2) = insert_quads-Holds s1 (add g q) qs h1 in
      (s2, rw (inserted, insert_quads) rest, h2)

  -- The quads of the store: those of `g`, with blank nodes of before `w.blanks` only.
  pub record Stores (w : ConfigGraph O) (g : Graph) : Type 0 where
    pub holds : M.Holds w.store g
    pub below : IsBelow O M.blank_injective w.blanks g

  add_offer :
      (k : ℕ) (offer : FileOffer) (g : Graph)
      → IsBelow O M.blank_injective k g
      → IsClear O M.blank_injective offer.dataset_id g
      → foldl add g (offer_graph O k offer) ≡ g ++ offer_graph O k offer
  unfolding offer_graph
  add_offer k offer g below clear =
      let inj = M.blank_injective in
      let policy = policy_iri offer.dataset_id in
      foldl-append add g (header_graph offer) (permissions_graph O policy 0 k offer.permissions)
      ∙ ap (λ h. foldl add h (permissions_graph O policy 0 k offer.permissions))
          (add_header O inj offer g clear)
      ∙ add_permissions O inj policy 0 k offer.permissions (g ++ header_graph offer)
          (IsBelow-append O inj k g (header_graph offer) below (header_graph-IsBelow O inj k offer))
      ∙ append_assoc g (header_graph offer) (permissions_graph O policy 0 k offer.permissions)

  pub offer_graph-IsBelow :
      (k : ℕ) (offer : FileOffer)
      → IsBelow O M.blank_injective (next_node O k offer.permissions) (offer_graph O k offer)
  unfolding offer_graph
  offer_graph-IsBelow k offer =
      let inj = M.blank_injective in
      let n = next_node O k offer.permissions in
      IsBelow-append O inj n (header_graph offer) _ (header_graph-IsBelow O inj n offer) (
        permissions_graph-IsBelow O inj (policy_iri offer.dataset_id) 0 k n offer.permissions
          (omega arith))

  seed_offer-ok :
      (w : ConfigGraph O) (offer : FileOffer) (qs : List Quad) (s' : O.Store) (k : ℕ)
      → offer_quads O w.blanks offer ≡ ok (qs, k)
      → insert_quads O w.store qs ≡ (ok tt, s')
      → seed_offer O offer w ≡ (ok tt, record { store = s'; blanks = k })
  unfolding seed_offer
  seed_offer-ok w offer qs s' k e i = rw (e, i, seed_offer)

  pub built :
      IsVocabulary O
      → (k : ℕ) (offer : FileOffer) → IsDatasetId O offer.dataset_id
      → offer_quads O k offer ≡ ok (offer_graph O k offer, next_node O k offer.permissions)
  unfolding offer_graph
  built V k offer D = offer_quads-ok O V k offer D

  -- Seeding an offer of a new dataset succeeds, and adds exactly its quads.
  pub seed_offer-Stores :
      IsVocabulary O
      → (offer : FileOffer) (w : ConfigGraph O) (g : Graph) → IsDatasetId O offer.dataset_id
      → Stores w g
      → IsClear O M.blank_injective offer.dataset_id g
      → (w' : ConfigGraph O) × (seed_offer O offer w ≡ (ok tt, w'))
        × Stores w' (g ++ offer_graph O w.blanks offer)
        × (w'.blanks ≡ next_node O w.blanks offer.permissions)
  seed_offer-Stores V offer w g D st clear =
      let inj = M.blank_injective in
      let k = next_node O w.blanks offer.permissions in
      let (s', inserted, h) =
        insert_quads-Holds w.store g (offer_graph O w.blanks offer) st.holds in
      (
        record { store = s'; blanks = k },
        seed_offer-ok w offer _ s' k (built V w.blanks offer D) inserted,
        record {
          holds = rw (add_offer w.blanks offer g st.below clear) at h;
          below =
              IsBelow-append O inj k g (offer_graph O w.blanks offer)
                (IsBelow-mono O inj w.blanks k g (next_node-ge O inj w.blanks offer.permissions)
                  st.below)
                (offer_graph-IsBelow w.blanks offer);
        },
        refl,
      )
