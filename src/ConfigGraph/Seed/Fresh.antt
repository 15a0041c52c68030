-- ===== src/ConfigGraph/Seed/Fresh.antt =====
-- The quads of an offer are new to the store: their blank nodes are, and so are the IRIs.
use ds_sql_dps_rs.Prelude.{
  String, ℕ, suc, ◌+◌, false, ◌≡◌, refl, ap, sym, ◌∙◌, List, [], ◌∷◌, ◌++◌, length, All, All-map,
  arith,
}
use mathlib.Core.List.{foldl, foldl-append, append_assoc, append-nil}
use ds_sql_dps_rs.Rdf.{Term, named_node, term_eq, Quad, quad_eq, Graph}
use ds_sql_dps_rs.Oxigraph.{Oxigraph, has, add}
use ds_sql_dps_rs.ConfigGraph.Offer.{FileOffer, PermissionSpec, ConstraintSpec}
use ds_sql_dps_rs.ConfigGraph.Store.{dataset_iri, distribution_iri, policy_iri}
use ds_sql_dps_rs.ConfigGraph.Seed.Quads.{
  quad, header_graph, node, constraint_block, constraints_graph, permission_block,
  permissions_graph,
}
use ds_sql_dps_rs.ConfigGraph.Seed.Differ.{AllDiffer, add-All}
use ds_sql_dps_rs.ConfigGraph.Seed.Below.{
  IsBelow, IsBelow-append, IsBelow-mono, IsBelowTerm, IsBelowTerm-mono, constraint_block-IsBelow,
  constraints_graph-IsBelow, node-IsBelow, permission_block-IsBelow, term_eq-below,
}

module _ (O : Oxigraph) (injective : (j k : ℕ) → O.blank j ≡ O.blank k → j ≡ k) where
  -- The quad has the `k`-th blank node for its subject or its object.
  data Mentions (k : ℕ) (q : Quad) : Type 0 where
    in_subject : q.subject ≡ node O k → Mentions k q
    in_object : q.object ≡ node O k → Mentions k q

  quad_eq-below :
      (k : ℕ) (q x : Quad)
      → IsBelowTerm O injective k x.subject
      → IsBelowTerm O injective k x.object
      → Mentions k q
      → quad_eq q x ≡ false
  unfolding quad_eq
  quad_eq-below k q x bs bo (in_subject e) =
      rw (e, term_eq-below O injective k k x.subject bs (omega arith)) (ground arith)
  quad_eq-below k q x bs bo (in_object e) =
      rw (e, term_eq-below O injective k k x.object bo (omega arith)) (ground arith)

  has-below :
      (k : ℕ) (q : Quad) (g : Graph) → IsBelow O injective k g → Mentions k q → has q g ≡ false
  unfolding has
  has-below k q [] b m = refl
  has-below k q (x ∷ g) b m = rw (quad_eq-below k q x b.0.0 b.0.1 m) (has-below k q g b.1 m)

  add_block :
      (k : ℕ) (g : Graph) (qs : List Quad)
      → IsBelow O injective k g
      → All (Mentions k) qs
      → AllDiffer qs
      → foldl add g qs ≡ g ++ qs
  add_block k g qs b m differ =
      add-All g qs (All-map (Mentions k) (λ q. has q g ≡ false) (λ q. has-below k q g b) qs m)
        differ

  -- Two lists of quads are appended in turn.
  add_both :
      (g xs ys : Graph)
      → foldl add g xs ≡ g ++ xs
      → foldl add (g ++ xs) ys ≡ (g ++ xs) ++ ys
      → foldl add g (xs ++ ys) ≡ g ++ (xs ++ ys)
  add_both g xs ys ex ey =
      foldl-append add g xs ys ∙ ap (λ h. foldl add h ys) ex ∙ ey ∙ append_assoc g xs ys

  constraint_block-AllDiffer :
      (p : Term) (j k : ℕ) (c : ConstraintSpec) → AllDiffer (constraint_block O p j k c)
  unfolding quad_eq
  constraint_block-AllDiffer p j k c = (
    (refl, (refl, (refl, (refl, tt)))),
    ((refl, (refl, (refl, tt))), ((refl, (refl, tt)), ((refl, tt), (tt, tt)))),
  )

  permission_block-AllDiffer :
      (policy : String) (i k : ℕ) (action : String)
      → AllDiffer (permission_block O policy i k action)
  unfolding quad_eq
  permission_block-AllDiffer policy i k action =
      ((refl, (refl, (refl, tt))), ((refl, (refl, tt)), ((refl, tt), (tt, tt))))

  add_constraints :
      (p : Term) (j k : ℕ) (cs : List ConstraintSpec) (g : Graph)
      → IsBelow O injective k g
      → IsBelowTerm O injective k p
      → foldl add g (constraints_graph O p j k cs) ≡ g ++ constraints_graph O p j k cs
  unfolding constraints_graph
  add_constraints p j k [] g b bp = sym (append-nil g)
  add_constraints p j k (c ∷ cs) g b bp =
      let block = constraint_block O p j k c in
      add_both g block (constraints_graph O p (suc j) (suc k) cs)
        (add_block k g block b
          (
            in_object refl,
            (in_subject refl, (in_subject refl, (in_subject refl, (in_subject refl, tt)))),
          )
          (constraint_block-AllDiffer p j k c))
        (add_constraints p (suc j) (suc k) cs (g ++ block)
          (IsBelow-append O injective (suc k) g block
            (IsBelow-mono O injective k (suc k) g (omega arith) b)
            (constraint_block-IsBelow O injective p j k c bp))
          (IsBelowTerm-mono O injective k (suc k) p (omega arith) bp))

  pub add_permissions :
      (policy : String) (i k : ℕ) (ps : List PermissionSpec) (g : Graph)
      → IsBelow O injective k g
      → foldl add g (permissions_graph O policy i k ps) ≡ g ++ permissions_graph O policy i k ps
  unfolding permissions_graph
  add_permissions policy i k [] g b = sym (append-nil g)
  add_permissions policy i k (p ∷ ps) g b =
      let k' = length p.constraints + suc k in
      let block = permission_block O policy i k p.action in
      let constraints = constraints_graph O (node O k) 0 (suc k) p.constraints in
      let rest = permissions_graph O policy (suc i) k' ps in
      let after_block : IsBelow O injective (suc k) (g ++ block) =
        IsBelow-append O injective (suc k) g block
          (IsBelow-mono O injective k (suc k) g (omega arith) b)
          (permission_block-IsBelow O injective policy i k p.action) in
      let after_constraints : IsBelow O injective k' ((g ++ block) ++ constraints) =
        IsBelow-append O injective k' (g ++ block) constraints
          (IsBelow-mono O injective (suc k) k' (g ++ block) (omega arith) after_block)
          (constraints_graph-IsBelow O injective (node O k) 0 (suc k) k' p.constraints
            (node-IsBelow O injective k) (omega arith)) in
      add_both g block (constraints ++ rest)
        (add_block k g block b
          (in_object refl, (in_subject refl, (in_subject refl, (in_subject refl, tt))))
          (permission_block-AllDiffer policy i k p.action))
        (add_both (g ++ block) constraints rest
          (add_constraints (node O k) 0 (suc k) p.constraints (g ++ block) after_block
            (node-IsBelow O injective k))
          (add_permissions policy (suc i) k' ps ((g ++ block) ++ constraints) after_constraints))

  -- No quad of the graph is about the dataset.
  abbrev pub Clear : String → Quad → Type 0
  Clear id q =
      (term_eq (named_node (dataset_iri id)) q.subject ≡ false)
      × (term_eq (named_node (distribution_iri id)) q.subject ≡ false)
      × (term_eq (named_node (policy_iri id)) q.subject ≡ false)

  abbrev pub IsClear : String → Graph → Type 0
  IsClear id = All (Clear id)

  has_clear :
      (s : Term) (p : String) (o : Term) (g : Graph)
      → All (λ q. term_eq s q.subject ≡ false) g
      → has (quad s p o) g ≡ false
  unfolding has quad_eq
  has_clear s p o [] h = refl
  has_clear s p o (q ∷ g) h = ground (arith, h.0, has_clear s p o g h.1)

  header_graph-AllDiffer : (offer : FileOffer) → AllDiffer (header_graph offer)
  unfolding quad_eq header_graph
  header_graph-AllDiffer offer = ground arith

  pub add_header :
      (offer : FileOffer) (g : Graph)
      → IsClear offer.dataset_id g
      → foldl add g (header_graph offer) ≡ g ++ header_graph offer
  unfolding header_graph
  add_header offer g clear =
      let dataset = named_node (dataset_iri offer.dataset_id) in
      let distribution = named_node (distribution_iri offer.dataset_id) in
      let policy = named_node (policy_iri offer.dataset_id) in
      let d =
        All-map (Clear offer.dataset_id) (λ q. term_eq dataset q.subject ≡ false) (λ q h. h.0) g
          clear in
      let f =
        All-map (Clear offer.dataset_id) (λ q. term_eq distribution q.subject ≡ false) (λ q h. h.1)
          g clear in
      let p =
        All-map (Clear offer.dataset_id) (λ q. term_eq policy q.subject ≡ false) (λ q h. h.2) g
          clear in
      add-All g (header_graph offer)
        (
          has_clear dataset _ _ g d,
          (
            has_clear dataset _ _ g d,
            (
              has_clear dataset _ _ g d,
              (
                has_clear distribution _ _ g f,
                (
                  has_clear distribution _ _ g f,
                  (
                    has_clear distribution _ _ g f,
                    (
                      has_clear policy _ _ g p,
                      (has_clear policy _ _ g p, (has_clear policy _ _ g p, tt)),
                    ),
                  ),
                ),
              ),
            ),
          ),
        )
        (header_graph-AllDiffer offer)
