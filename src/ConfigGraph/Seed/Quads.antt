-- ===== src/ConfigGraph/Seed/Quads.antt =====
-- With valid IRIs, `seed_offer` builds exactly these quads.
use ds_sql_dps_rs.Prelude.{
  String, ℕ, suc, ◌+◌, true, ◌≡◌, refl, List, [], ◌∷◌, ◌++◌, length, ok, arith,
}
use ds_sql_dps_rs.Prelude.Decimal.{to_string}
use ds_sql_dps_rs.Rdf.{Term, named_node, blank_node, simple_literal, typed_literal, Quad, Graph}
use ds_sql_dps_rs.Oxigraph.{Oxigraph}
use ds_sql_dps_rs.ConfigGraph.Vocab
use ds_sql_dps_rs.ConfigGraph.Vocab.{dcat, dcterms, ds, odrl, rdf, xsd}
use ds_sql_dps_rs.ConfigGraph.Offer.{to_string_lossy, FileOffer, PermissionSpec, ConstraintSpec}
use ds_sql_dps_rs.ConfigGraph.Store.{dataset_iri, distribution_iri, policy_iri}
use ds_sql_dps_rs.ConfigGraph.Seed.{constraint_quads, permission_quads, header_quads, offer_quads}

-- The IRIs of the vocabulary are valid, with those of its namespaces that queries write.
pub record IsVocabulary (O : Oxigraph) : Type 0 where
  pub dcat_ns : O.is_iri Vocab.dcat_ns ≡ true
  pub odrl_ns : O.is_iri Vocab.odrl_ns ≡ true
  pub ds_ns : O.is_iri Vocab.ds_ns ≡ true
  pub rdf_type : O.is_iri (rdf "type") ≡ true
  pub dataset_class : O.is_iri (dcat "Dataset") ≡ true
  pub title : O.is_iri (dcterms "title") ≡ true
  pub distribution : O.is_iri (dcat "distribution") ≡ true
  pub distribution_class : O.is_iri (dcat "Distribution") ≡ true
  pub file_path : O.is_iri (ds "filePath") ≡ true
  pub media_type : O.is_iri (dcat "mediaType") ≡ true
  pub offer_class : O.is_iri (odrl "Offer") ≡ true
  pub target : O.is_iri (odrl "target") ≡ true
  pub assigner : O.is_iri (odrl "assigner") ≡ true
  pub integer : O.is_iri (xsd "integer") ≡ true
  pub permission : O.is_iri (odrl "permission") ≡ true
  pub permission_class : O.is_iri (odrl "Permission") ≡ true
  pub order : O.is_iri (ds "order") ≡ true
  pub action : O.is_iri (odrl "action") ≡ true
  pub constraint : O.is_iri (odrl "constraint") ≡ true
  pub left_operand : O.is_iri (odrl "leftOperand") ≡ true
  pub operator : O.is_iri (odrl "operator") ≡ true
  pub right_operand : O.is_iri (odrl "rightOperand") ≡ true

-- The dataset id makes valid IRIs.
pub record IsDatasetId (O : Oxigraph) (id : String) : Type 0 where
  pub dataset : O.is_iri (dataset_iri id) ≡ true
  pub distribution : O.is_iri (distribution_iri id) ≡ true
  pub policy : O.is_iri (policy_iri id) ≡ true

-- The literal of a position.
abbrev pub position : ℕ → Term
position n = typed_literal (to_string n) (xsd "integer")

abbrev pub quad : Term → String → Term → Quad
quad s p o = record { subject = s; predicate = p; object = o }

unfoldable pub header_graph : FileOffer → Graph
header_graph offer =
    let dataset = named_node (dataset_iri offer.dataset_id) in
    let distribution = named_node (distribution_iri offer.dataset_id) in
    let policy = named_node (policy_iri offer.dataset_id) in
    quad dataset (rdf "type") (named_node (dcat "Dataset"))
    ∷ quad dataset (dcterms "title") (simple_literal offer.title)
    ∷ quad dataset (dcat "distribution") distribution
    ∷ quad distribution (rdf "type") (named_node (dcat "Distribution"))
    ∷ quad distribution (ds "filePath") (simple_literal (to_string_lossy offer.file_path))
    ∷ quad distribution (dcat "mediaType") (simple_literal offer.media_type)
    ∷ quad policy (rdf "type") (named_node (odrl "Offer"))
    ∷ quad policy (odrl "target") dataset
    ∷ quad policy (odrl "assigner") (simple_literal offer.assigner)
    ∷ []

module _ (O : Oxigraph) where
  abbrev pub node : ℕ → Term
  node k = blank_node (O.blank k)

  abbrev pub constraint_block : Term → ℕ → ℕ → ConstraintSpec → Graph
  constraint_block p j k c =
      quad p (odrl "constraint") (node k)
      ∷ quad (node k) (ds "order") (position j)
      ∷ quad (node k) (odrl "leftOperand") (simple_literal c.left_operand)
      ∷ quad (node k) (odrl "operator") (simple_literal c.operator)
      ∷ quad (node k) (odrl "rightOperand") (simple_literal c.right_operand)
      ∷ []

  unfoldable pub constraints_graph : Term → ℕ → ℕ → List ConstraintSpec → Graph
  constraints_graph p j k [] = []
  constraints_graph p j k (c ∷ cs) =
      constraint_block p j k c ++ constraints_graph p (suc j) (suc k) cs

  abbrev pub permission_block : String → ℕ → ℕ → String → Graph
  permission_block policy i k action =
      quad (named_node policy) (odrl "permission") (node k)
      ∷ quad (node k) (rdf "type") (named_node (odrl "Permission"))
      ∷ quad (node k) (ds "order") (position i)
      ∷ quad (node k) (odrl "action") (simple_literal action)
      ∷ []

  unfoldable pub permissions_graph : String → ℕ → ℕ → List PermissionSpec → Graph
  unfolding constraints_graph
  permissions_graph policy i k [] = []
  permissions_graph policy i k (p ∷ ps) =
      permission_block policy i k p.action
      ++ (constraints_graph (node k) 0 (suc k) p.constraints
          ++ permissions_graph policy (suc i) (length p.constraints + suc k) ps)

  -- The first blank node that is not used.
  unfoldable pub next_node : ℕ → List PermissionSpec → ℕ
  next_node k [] = k
  next_node k (p ∷ ps) = next_node (length p.constraints + suc k) ps

  module _ (V : IsVocabulary O) where
    constraint_quads-ok :
        (p : Term) (j k : ℕ) (cs : List ConstraintSpec)
        → constraint_quads O p j k (xsd "integer") cs
          ≡ ok (constraints_graph p j k cs, length cs + k)
    unfolding constraint_quads constraints_graph
    constraint_quads-ok p j k [] = ground arith
    constraint_quads-ok p j k (c ∷ cs) =
        simp
          (
            V.constraint,
            V.order,
            V.left_operand,
            V.operator,
            V.right_operand,
            constraint_quads-ok p (suc j) (suc k) cs,
          )
          (ground arith)

    permission_quads-ok :
        (policy : String) (i k : ℕ) (ps : List PermissionSpec)
        → permission_quads O policy i k (xsd "integer") ps
          ≡ ok (permissions_graph policy i k ps, next_node k ps)
    unfolding permission_quads permissions_graph next_node
    permission_quads-ok policy i k [] = refl
    permission_quads-ok policy i k (p ∷ ps) = simp (
      V.permission,
      V.rdf_type,
      V.permission_class,
      V.order,
      V.action,
      constraint_quads-ok,
      permission_quads-ok policy (suc i) (length p.constraints + suc k) ps,
    )

    header_quads-ok :
        (offer : FileOffer)
        → IsDatasetId O offer.dataset_id
        → header_quads O offer ≡ ok (header_graph offer)
    unfolding header_quads header_graph
    header_quads-ok offer D = simp (
      D.dataset, D.distribution, D.policy, V.rdf_type, V.dataset_class, V.title, V.distribution,
      V.distribution_class, V.file_path, V.media_type, V.offer_class, V.target, V.assigner,
    )

    pub offer_quads-ok :
        (k : ℕ) (offer : FileOffer)
        → IsDatasetId O offer.dataset_id
        → offer_quads O k offer
          ≡ ok (
            header_graph offer
                ++ permissions_graph (policy_iri offer.dataset_id) 0 k offer.permissions,
            next_node k offer.permissions,
          )
    unfolding offer_quads
    offer_quads-ok k offer D = simp (header_quads-ok offer D, V.integer, permission_quads-ok)
