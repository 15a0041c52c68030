-- ===== src/ConfigGraph/Seed.antt =====
-- config-graph/src/store.rs: `seed_offer`, which writes an offer as quads: it builds them all, and
-- validates every IRI, before it inserts the first one.
pub mod Quads
pub mod Differ
pub mod Below
pub mod Fresh
pub mod Facts
pub mod Nodes
pub mod HasOffer
pub mod Laws
pub mod Errors
pub mod Count
use ds_sql_dps_rs.Prelude.{
  String, ◌<>◌, ℕ, suc, Option, none, some, List, [], ◌∷◌, ◌++◌, head?, Result, ok, err, ◌>>=◌,
  map_err, if◌then◌else◌,
}
use ds_sql_dps_rs.Prelude.Decimal.{to_string}
use ds_sql_dps_rs.Rdf.{Term, named_node, blank_node, simple_literal, typed_literal, Quad}
use ds_sql_dps_rs.Sparql.{Query, TriplePattern, iri, var, Solution, get}
use ds_sql_dps_rs.Oxigraph.{
  Oxigraph, QueryResults, solutions_of, boolean, triples, QueryFailure, syntax, evaluation,
}
use ds_sql_dps_rs.ConfigGraph.Vocab.{dcat, dcterms, ds, odrl, rdf, xsd}
use ds_sql_dps_rs.ConfigGraph.Offer.{
  PathBuf, unicode, to_string_lossy, FileOffer, PermissionSpec, ConstraintSpec,
}
use ds_sql_dps_rs.ConfigGraph.Store.{
  ConfigGraphError, storage, dataset_iri, distribution_iri, policy_iri, ConfigGraph, new_named_node,
}

module _ (O : Oxigraph) where
  -- The loop over `permission.constraints`, from index `j` and the blank node `k`. It returns the
  -- quads that it pushes, and the next blank node.
  unfoldable pub constraint_quads :
      Term → ℕ → ℕ → String → List ConstraintSpec → Result ConfigGraphError (List Quad × ℕ)
  unfolding new_named_node
  constraint_quads p j k integer [] = ok ([], k)
  constraint_quads p j k integer (constraint ∷ rest) = do
    let c = blank_node (O.blank k)
    odrl_constraint ← new_named_node O (odrl "constraint")
    ds_order ← new_named_node O (ds "order")
    left_operand ← new_named_node O (odrl "leftOperand")
    operator ← new_named_node O (odrl "operator")
    right_operand ← new_named_node O (odrl "rightOperand")
    (quads, k') ← constraint_quads p (suc j) (suc k) integer rest
    ok (
      record { subject = p; predicate = odrl_constraint; object = c }
          ∷ record {
            subject = c;
            predicate = ds_order;
            object = typed_literal (to_string j) integer;
          }
          ∷ record {
            subject = c;
            predicate = left_operand;
            object = simple_literal constraint.left_operand;
          }
          ∷ record {
            subject = c;
            predicate = operator;
            object = simple_literal constraint.operator;
          }
          ∷ record {
            subject = c;
            predicate = right_operand;
            object = simple_literal constraint.right_operand;
          }
          ∷ quads,
      k',
    )

  -- The loop over `offer.permissions`, from index `i` and the blank node `k`.
  unfoldable pub permission_quads :
      String → ℕ → ℕ → String → List PermissionSpec → Result ConfigGraphError (List Quad × ℕ)
  unfolding new_named_node constraint_quads
  permission_quads policy i k integer [] = ok ([], k)
  permission_quads policy i k integer (permission ∷ rest) = do
    let p = blank_node (O.blank k)
    odrl_permission ← new_named_node O (odrl "permission")
    rdf_type ← new_named_node O (rdf "type")
    permission_class ← new_named_node O (odrl "Permission")
    ds_order ← new_named_node O (ds "order")
    odrl_action ← new_named_node O (odrl "action")
    (constraints, k') ← constraint_quads p 0 (suc k) integer permission.constraints
    (quads, k'') ← permission_quads policy (suc i) k' integer rest
    ok (
      record { subject = named_node policy; predicate = odrl_permission; object = p }
          ∷ record { subject = p; predicate = rdf_type; object = named_node permission_class }
          ∷ record {
            subject = p;
            predicate = ds_order;
            object = typed_literal (to_string i) integer;
          }
          ∷ record {
            subject = p;
            predicate = odrl_action;
            object = simple_literal permission.action;
          }
          ∷ (constraints ++ quads),
      k'',
    )

  -- The quads of the `vec![…]`.
  unfoldable pub header_quads : FileOffer → Result ConfigGraphError (List Quad)
  unfolding new_named_node
  header_quads offer = do
    dataset ← new_named_node O (dataset_iri offer.dataset_id)
    distribution ← new_named_node O (distribution_iri offer.dataset_id)
    policy ← new_named_node O (policy_iri offer.dataset_id)
    rdf_type ← new_named_node O (rdf "type")
    dataset_class ← new_named_node O (dcat "Dataset")
    title ← new_named_node O (dcterms "title")
    dcat_distribution ← new_named_node O (dcat "distribution")
    distribution_class ← new_named_node O (dcat "Distribution")
    file_path ← new_named_node O (ds "filePath")
    media_type ← new_named_node O (dcat "mediaType")
    offer_class ← new_named_node O (odrl "Offer")
    target ← new_named_node O (odrl "target")
    assigner ← new_named_node O (odrl "assigner")
    ok (
        record {
          subject = named_node dataset;
          predicate = rdf_type;
          object = named_node dataset_class;
        }
        ∷ record {
          subject = named_node dataset;
          predicate = title;
          object = simple_literal offer.title;
        }
        ∷ record {
          subject = named_node dataset;
          predicate = dcat_distribution;
          object = named_node distribution;
        }
        ∷ record {
          subject = named_node distribution;
          predicate = rdf_type;
          object = named_node distribution_class;
        }
        ∷ record {
          subject = named_node distribution;
          predicate = file_path;
          object = simple_literal (to_string_lossy offer.file_path);
        }
        ∷ record {
          subject = named_node distribution;
          predicate = media_type;
          object = simple_literal offer.media_type;
        }
        ∷ record {
          subject = named_node policy;
          predicate = rdf_type;
          object = named_node offer_class;
        }
        ∷ record { subject = named_node policy; predicate = target; object = named_node dataset }
        ∷ record {
          subject = named_node policy;
          predicate = assigner;
          object = simple_literal offer.assigner;
        }
        ∷ [])

  -- The final loop: a failing insert leaves the quads that stand before it in the store.
  unfoldable pub insert_quads : O.Store → List Quad → Result ConfigGraphError (Unit {0}) × O.Store
  insert_quads s [] = (ok tt, s)
  insert_quads s (q ∷ quads) = elim (O.insert s q) [
    | ok s' ↦ insert_quads s' quads
    | err e ↦ (err (storage e), s)
  ]

  -- All quads of an offer, with the blank nodes from `k` on.
  unfoldable pub offer_quads : ℕ → FileOffer → Result ConfigGraphError (List Quad × ℕ)
  unfolding header_quads permission_quads
  offer_quads k offer = do
    header ← header_quads offer
    integer ← new_named_node O (xsd "integer")
    (quads, k') ← permission_quads (policy_iri offer.dataset_id) 0 k integer offer.permissions
    ok (header ++ quads, k')

  unfoldable pub seed_offer :
      FileOffer → ConfigGraph O → Result ConfigGraphError (Unit {0}) × ConfigGraph O
  seed_offer offer w = elim (offer_quads w.blanks offer) [
    | err e ↦ (err e, w)
    | ok (quads, k) ↦
        let (r, s) = insert_quads w.store quads in (r, record { store = s; blanks = k })
  ]
