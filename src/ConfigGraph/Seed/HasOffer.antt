-- ===== src/ConfigGraph/Seed/HasOffer.antt =====
-- What a graph says of a seeded offer, whatever else it holds.
use ds_sql_dps_rs.Prelude.{
  String, ℕ, suc, ◌+◌, false, ◌≡◌, refl, ap, ◌∙◌, List, [], ◌∷◌, ◌++◌, length, All, All-append,
  All-map, ◌==◌, eq_refl,
}
use mathlib.Core.List.{append_assoc, append-nil}
use ds_sql_dps_rs.Rdf.{Term, named_node, simple_literal, term_eq, Graph}
use ds_sql_dps_rs.Sparql.Laws.{objects, objects-append}
use ds_sql_dps_rs.Oxigraph.{Oxigraph}
use ds_sql_dps_rs.ConfigGraph.Vocab.{ds, odrl, rdf, dcat}
use ds_sql_dps_rs.ConfigGraph.Offer.{to_string_lossy, FileOffer, PermissionSpec, ConstraintSpec}
use ds_sql_dps_rs.ConfigGraph.Store.{dataset_iri, distribution_iri, policy_iri}
use ds_sql_dps_rs.ConfigGraph.Seed.Quads.{
  header_graph, node, constraints_graph, permissions_graph, next_node,
}
use ds_sql_dps_rs.ConfigGraph.Seed.Below.{IsBelow, IsBelow-append}
use ds_sql_dps_rs.ConfigGraph.Seed.Fresh.{IsClear, Clear}
use ds_sql_dps_rs.ConfigGraph.Seed.Facts.{PermissionsAt, permission_nodes, IsAbove, objects-others}
use ds_sql_dps_rs.ConfigGraph.Seed.Nodes.{permissions_graph-PermissionsAt, permissions_of_policy}

abbrev distribution_of : FileOffer → Term
distribution_of offer = named_node (distribution_iri offer.dataset_id)

abbrev policy_of : FileOffer → Term
policy_of offer = named_node (policy_iri offer.dataset_id)

-- Its blank nodes are those from `k` on.
pub record HasOffer (O : Oxigraph) (G : Graph) (k : ℕ) (offer : FileOffer) : Type 0 where
  pub file_path :
      objects (distribution_of offer) (ds "filePath") G
      ≡ simple_literal (to_string_lossy offer.file_path) ∷ []
  pub media_type :
      objects (distribution_of offer) (dcat "mediaType") G ≡ simple_literal offer.media_type ∷ []
  pub target :
      objects (policy_of offer) (odrl "target") G ≡ named_node (dataset_iri offer.dataset_id) ∷ []
  pub assigner : objects (policy_of offer) (odrl "assigner") G ≡ simple_literal offer.assigner ∷ []
  pub permission :
      objects (policy_of offer) (odrl "permission") G ≡ permission_nodes O k offer.permissions
  pub permissions : PermissionsAt O G 0 k offer.permissions

-- A predicate that no quad of a permission or of a constraint has.
abbrev IsOther : String → Type 0
IsOther p =
    All (λ q. (p == q) ≡ false)
      (odrl "permission"
        ∷ rdf "type"
        ∷ ds "order"
        ∷ odrl "action"
        ∷ odrl "constraint"
        ∷ odrl "leftOperand"
        ∷ odrl "operator"
        ∷ odrl "rightOperand"
        ∷ [])

objects-other_predicate :
    (s : Term) (p : String) (g : Graph)
    → All (λ q. (p == q.predicate) ≡ false) g
    → objects s p g ≡ []
unfolding objects
objects-other_predicate s p [] h = refl
objects-other_predicate s p (q ∷ g) h = rw h.0 (objects-other_predicate s p g h.1)

module _ (offer : FileOffer) where
  header_file_path :
      objects (distribution_of offer) (ds "filePath") (header_graph offer)
      ≡ simple_literal (to_string_lossy offer.file_path) ∷ []
  unfolding objects header_graph term_eq
  header_file_path = rw (eq_refl (distribution_iri offer.dataset_id))

  header_media_type :
      objects (distribution_of offer) (dcat "mediaType") (header_graph offer)
      ≡ simple_literal offer.media_type ∷ []
  unfolding objects header_graph term_eq
  header_media_type = rw (eq_refl (distribution_iri offer.dataset_id))

  header_target :
      objects (policy_of offer) (odrl "target") (header_graph offer)
      ≡ named_node (dataset_iri offer.dataset_id) ∷ []
  unfolding objects header_graph term_eq
  header_target = rw (eq_refl (policy_iri offer.dataset_id))

  header_assigner :
      objects (policy_of offer) (odrl "assigner") (header_graph offer)
      ≡ simple_literal offer.assigner ∷ []
  unfolding objects header_graph term_eq
  header_assigner = rw (eq_refl (policy_iri offer.dataset_id))

  header_permission : objects (policy_of offer) (odrl "permission") (header_graph offer) ≡ []
  unfolding objects header_graph
  header_permission = refl

module _ (O : Oxigraph) where
  constraints-IsOther :
      (p : String) (t : Term) (j k : ℕ) (cs : List ConstraintSpec)
      → IsOther p
      → All (λ q. (p == q.predicate) ≡ false) (constraints_graph O t j k cs)
  unfolding constraints_graph
  constraints-IsOther p t j k [] h = tt
  constraints-IsOther p t j k (c ∷ cs) h =
      let (permission, (type, (order, (action, (constraint, (left, (op, (right, end)))))))) = h in
      (constraint, (order, (left, (op, (right, constraints-IsOther p t (suc j) (suc k) cs h)))))

  permissions-IsOther :
      (p policy : String) (i k : ℕ) (ps : List PermissionSpec)
      → IsOther p
      → All (λ q. (p == q.predicate) ≡ false) (permissions_graph O policy i k ps)
  unfolding permissions_graph
  permissions-IsOther p policy i k [] h = tt
  permissions-IsOther p policy i k (x ∷ ps) h = (
    h.0,
    (
      h.1.0,
      (
        h.1.1.0,
        (
          h.1.1.1.0,
          All-append (λ q. (p == q.predicate) ≡ false)
              (constraints_graph O (node O k) 0 (suc k) x.constraints) _
              (constraints-IsOther p (node O k) 0 (suc k) x.constraints h)
              (permissions-IsOther p policy (suc i) (length x.constraints + suc k) ps h),
        ),
      ),
    ),
  )

  unfoldable pub offer_graph : ℕ → FileOffer → Graph
  offer_graph k offer =
      header_graph offer ++ permissions_graph O (policy_iri offer.dataset_id) 0 k offer.permissions

  module _ (injective : (j k : ℕ) → O.blank j ≡ O.blank k → j ≡ k) where
    regroup :
        (offer : FileOffer) (k : ℕ) (pre post : Graph)
        → pre ++ (offer_graph k offer ++ post)
          ≡ (pre ++ header_graph offer)
            ++ (permissions_graph O (policy_iri offer.dataset_id) 0 k offer.permissions ++ post)
    unfolding offer_graph
    regroup offer k pre post = rw (append_assoc, append_assoc)

    -- The objects of one of the offer's IRIs are those that the offer's own quads give.
    own_objects :
        (s : Term) (p : String) (offer : FileOffer) (k : ℕ) (pre post : Graph)
        → All (λ q. term_eq s q.subject ≡ false) pre
        → All (λ q. term_eq s q.subject ≡ false) post
        → objects s p (pre ++ (offer_graph k offer ++ post))
          ≡ objects s p (header_graph offer)
            ++ objects s p (permissions_graph O (policy_iri offer.dataset_id) 0 k offer.permissions)
    unfolding offer_graph
    own_objects s p offer k pre post hpre hpost =
        rw
          (
            objects-append s p pre (offer_graph k offer ++ post),
            objects-append s p (offer_graph k offer) post,
            objects-others O injective s p pre hpre,
            objects-others O injective s p post hpost,
            append-nil (objects s p (offer_graph k offer)),
          )
          (objects-append s p (header_graph offer) _)

    header_object :
        (s : Term) (p : String) (offer : FileOffer) (k : ℕ) (pre post : Graph)
        → IsOther p
        → All (λ q. term_eq s q.subject ≡ false) pre
        → All (λ q. term_eq s q.subject ≡ false) post
        → objects s p (pre ++ (offer_graph k offer ++ post)) ≡ objects s p (header_graph offer)
    header_object s p offer k pre post other hpre hpost =
        own_objects s p offer k pre post hpre hpost
        ∙ ap (λ t. objects s p (header_graph offer) ++ t)
            (objects-other_predicate s p
              (permissions_graph O (policy_iri offer.dataset_id) 0 k offer.permissions)
              (permissions-IsOther p (policy_iri offer.dataset_id) 0 k offer.permissions other))
        ∙ append-nil (objects s p (header_graph offer))

    pub header_graph-IsBelow :
        (k : ℕ) (offer : FileOffer) → IsBelow O injective k (header_graph offer)
    unfolding header_graph
    header_graph-IsBelow k offer =
        let t : Unit {0} × Unit {0} = (tt, tt) in (t, (t, (t, (t, (t, (t, (t, (t, (t, tt)))))))))

    -- After any graph and before any, as long as neither says anything of the dataset.
    pub offer_graph-HasOffer :
        (offer : FileOffer) (k : ℕ) (pre post : Graph)
        → IsBelow O injective k pre
        → IsClear O injective offer.dataset_id pre
        → IsClear O injective offer.dataset_id post
        → IsAbove O (next_node O k offer.permissions) post
        → HasOffer O (pre ++ (offer_graph k offer ++ post)) k offer
    offer_graph-HasOffer offer k pre post below clear_pre clear_post above =
        let id = offer.dataset_id in
        let of_distribution = λ (g : Graph) (h : IsClear O injective id g).
          All-map (Clear O injective id) (λ q. term_eq (distribution_of offer) q.subject ≡ false)
            (λ q c. c.1) g h in
        let of_policy = λ (g : Graph) (h : IsClear O injective id g).
          All-map (Clear O injective id) (λ q. term_eq (policy_of offer) q.subject ≡ false)
            (λ q c. c.2) g h in
        let distribution = λ (p : String) (other : IsOther p).
          header_object (distribution_of offer) p offer k pre post other
            (of_distribution pre clear_pre) (of_distribution post clear_post) in
        let policy = λ (p : String) (other : IsOther p).
          header_object (policy_of offer) p offer k pre post other (of_policy pre clear_pre)
            (of_policy post clear_post) in
        record {
          file_path =
              distribution (ds "filePath")
                (refl, (refl, (refl, (refl, (refl, (refl, (refl, (refl, tt))))))))
              ∙ header_file_path offer;
          media_type =
              distribution (dcat "mediaType")
                (refl, (refl, (refl, (refl, (refl, (refl, (refl, (refl, tt))))))))
              ∙ header_media_type offer;
          target =
              policy (odrl "target")
                (refl, (refl, (refl, (refl, (refl, (refl, (refl, (refl, tt))))))))
              ∙ header_target offer;
          assigner =
              policy (odrl "assigner")
                (refl, (refl, (refl, (refl, (refl, (refl, (refl, (refl, tt))))))))
              ∙ header_assigner offer;
          permission =
              own_objects (policy_of offer) (odrl "permission") offer k pre post
                (of_policy pre clear_pre) (of_policy post clear_post)
              ∙ rw (header_permission offer)
                  (permissions_of_policy O injective (policy_iri id) 0 k offer.permissions);
          permissions =
              permissions_graph-PermissionsAt O injective _ (policy_iri id) 0 k offer.permissions
                (pre ++ header_graph offer) post (regroup offer k pre post)
                (IsBelow-append O injective k pre (header_graph offer) below
                  (header_graph-IsBelow k offer))
                above;
        }
