-- ===== src/ConfigGraph/Seed/Facts.antt =====
-- What the quads of an offer say of its nodes, in a graph that holds them among others.
use ds_sql_dps_rs.Prelude.{
  String, ℕ, suc, ◌+◌, ◌≤◌, ◌<◌, false, ◌≡◌, refl, ap, ◌∙◌, List, [], ◌∷◌, ◌++◌, length, All,
  All-append, arith, eq_refl,
}
use mathlib.Core.List.{append-nil}
use ds_sql_dps_rs.Rdf.{Term, named_node, blank_node, simple_literal, typed_literal, term_eq, Graph}
use ds_sql_dps_rs.Sparql.Laws.{objects, objects-append}
use ds_sql_dps_rs.Oxigraph.{Oxigraph}
use ds_sql_dps_rs.ConfigGraph.Vocab.{ds, odrl}
use ds_sql_dps_rs.ConfigGraph.Offer.{PermissionSpec, ConstraintSpec}
use ds_sql_dps_rs.ConfigGraph.Seed.Quads.{
  position, node, constraint_block, constraints_graph, permissions_graph,
}
use ds_sql_dps_rs.ConfigGraph.Seed.Below.{IsBelowTerm, IsBelow, term_eq-below, blank_ne}

module _ (O : Oxigraph) where
  -- The objects of a node.
  abbrev pub at : Graph → ℕ → String → List Term
  at G k p = objects (node O k) p G

  -- The blank nodes of the constraints, and of the permissions, in order.
  abbrev pub constraint_nodes : ℕ → List ConstraintSpec → List Term
  constraint_nodes k [] = []
  constraint_nodes k (c ∷ cs) = node O k ∷ constraint_nodes (suc k) cs

  abbrev pub permission_nodes : ℕ → List PermissionSpec → List Term
  permission_nodes k [] = []
  permission_nodes k (p ∷ ps) = node O k ∷ permission_nodes (length p.constraints + suc k) ps

  pub record ConstraintAt (G : Graph) (j k : ℕ) (c : ConstraintSpec) : Type 0 where
    pub order : at G k (ds "order") ≡ position j ∷ []
    pub left : at G k (odrl "leftOperand") ≡ simple_literal c.left_operand ∷ []
    pub operator : at G k (odrl "operator") ≡ simple_literal c.operator ∷ []
    pub right : at G k (odrl "rightOperand") ≡ simple_literal c.right_operand ∷ []

  abbrev pub ConstraintsAt : Graph → ℕ → ℕ → List ConstraintSpec → Type 0
  ConstraintsAt G j k [] = Unit
  ConstraintsAt G j k (c ∷ cs) = ConstraintAt G j k c × ConstraintsAt G (suc j) (suc k) cs

  pub record PermissionAt (G : Graph) (i k : ℕ) (p : PermissionSpec) : Type 0 where
    pub order : at G k (ds "order") ≡ position i ∷ []
    pub action : at G k (odrl "action") ≡ simple_literal p.action ∷ []
    pub constraints : at G k (odrl "constraint") ≡ constraint_nodes (suc k) p.constraints
    pub constraint : ConstraintsAt G 0 (suc k) p.constraints

  abbrev pub PermissionsAt : Graph → ℕ → ℕ → List PermissionSpec → Type 0
  PermissionsAt G i k [] = Unit
  PermissionsAt G i k (p ∷ ps) =
      PermissionAt G i k p × PermissionsAt G (suc i) (length p.constraints + suc k) ps

  -- A blank node of the term, if it is one, is the `k`-th or later.
  abbrev pub IsAboveTerm : ℕ → Term → Type 0
  IsAboveTerm k (blank_node b) = (m : ℕ) × (b ≡ O.blank m) × (k ≤ m)
  IsAboveTerm k (named_node i) = Unit
  IsAboveTerm k (simple_literal s) = Unit
  IsAboveTerm k (typed_literal s d) = Unit

  -- All subjects are so.
  abbrev pub IsAbove : ℕ → Graph → Type 0
  IsAbove k = All (λ q. IsAboveTerm k q.subject)

  pub constraints_graph-IsAbove :
      (n : ℕ) (p : Term) (j k : ℕ) (cs : List ConstraintSpec)
      → IsAboveTerm n p
      → n ≤ k
      → IsAbove n (constraints_graph O p j k cs)
  unfolding constraints_graph
  constraints_graph-IsAbove n p j k [] a h = tt
  constraints_graph-IsAbove n p j k (c ∷ cs) a h =
      let b : IsAboveTerm n (node O k) = (k, refl, h) in
      (a, (b, (b, (b, (b, constraints_graph-IsAbove n p (suc j) (suc k) cs a (omega arith))))))

  pub permissions_graph-IsAbove :
      (n : ℕ) (policy : String) (i k : ℕ) (ps : List PermissionSpec)
      → n ≤ k
      → IsAbove n (permissions_graph O policy i k ps)
  unfolding permissions_graph
  permissions_graph-IsAbove n policy i k [] h = tt
  permissions_graph-IsAbove n policy i k (p ∷ ps) h =
      let b : IsAboveTerm n (node O k) = (k, refl, h) in
      (
        tt,
        (
          b,
          (
            b,
            (
              b,
              All-append (λ q. IsAboveTerm n q.subject)
                  (constraints_graph O (node O k) 0 (suc k) p.constraints) _
                  (constraints_graph-IsAbove n (node O k) 0 (suc k) p.constraints b (omega arith))
                  (permissions_graph-IsAbove n policy (suc i) (length p.constraints + suc k) ps
                    (omega arith)),
            ),
          ),
        ),
      )

  module _ (injective : (j k : ℕ) → O.blank j ≡ O.blank k → j ≡ k) where
    pub objects-below :
        (k j : ℕ) (p : String) (g : Graph) → IsBelow O injective k g → k ≤ j → at g j p ≡ []
    unfolding objects
    objects-below k j p [] b h = refl
    objects-below k j p (q ∷ g) b h =
        ground (arith, term_eq-below O injective k j q.subject b.0.0, objects-below k j p g b.1)

    term_eq-above : (k j : ℕ) (t : Term) → IsAboveTerm k t → j < k → term_eq (node O j) t ≡ false
    unfolding term_eq
    term_eq-above k j (blank_node b) (m, e, le) h = rw e (blank_ne O injective j m (omega arith))
    term_eq-above k j (named_node i) b h = refl
    term_eq-above k j (simple_literal s) b h = refl
    term_eq-above k j (typed_literal s d) b h = refl

    pub objects-above : (k j : ℕ) (p : String) (g : Graph) → IsAbove k g → j < k → at g j p ≡ []
    unfolding objects
    objects-above k j p [] b h = refl
    objects-above k j p (q ∷ g) b h =
        ground (arith, term_eq-above k j q.subject b.0, objects-above k j p g b.1)

    -- Only the block of its own tells of a node, where none behind it does.
    pub objects_of_block :
        (k : ℕ) (p : String) (pre block post : Graph)
        → IsBelow O injective k pre
        → at post k p ≡ []
        → at (pre ++ (block ++ post)) k p ≡ at block k p
    objects_of_block k p pre block post b none_behind =
        rw
          (
            objects-append (node O k) p pre (block ++ post),
            objects-append (node O k) p block post,
            objects-below k k p pre b (omega arith),
            none_behind,
          )
          (append-nil (at block k p))

    pub objects-others :
        (s : Term) (p : String) (g : Graph)
        → All (λ q. term_eq s q.subject ≡ false) g
        → objects s p g ≡ []
    unfolding objects
    objects-others s p [] h = refl
    objects-others s p (q ∷ g) h = ground (arith, h.0, objects-others s p g h.1)

    constraints_graph-others :
        (k : ℕ) (p : Term) (j k' : ℕ) (cs : List ConstraintSpec)
        → term_eq (node O k) p ≡ false
        → k < k'
        → All (λ q. term_eq (node O k) q.subject ≡ false) (constraints_graph O p j k' cs)
    unfolding constraints_graph term_eq
    constraints_graph-others k p j k' [] ne h = tt
    constraints_graph-others k p j k' (c ∷ cs) ne h =
        let n = blank_ne O injective k k' (omega arith) in
        (ne, (n, (n, (n, (n, constraints_graph-others k p (suc j) (suc k') cs ne (omega arith))))))

    -- Later constraints tell nothing of an earlier one.
    pub at-later_constraints :
        (k : ℕ) (p : Term) (j k' : ℕ) (cs : List ConstraintSpec) (q : String)
        → IsBelowTerm O injective k p
        → k < k'
        → at (constraints_graph O p j k' cs) k q ≡ []
    at-later_constraints k p j k' cs q b h =
        objects-others (node O k) q _
          (constraints_graph-others k p j k' cs (term_eq-below O injective k k p b (omega arith)) h)

    -- The constraints of a permission say nothing of its order and its action.
    pub order-constraints_graph :
        (k j k' : ℕ) (cs : List ConstraintSpec)
        → k < k'
        → at (constraints_graph O (node O k) j k' cs) k (ds "order") ≡ []
    unfolding constraints_graph objects term_eq
    order-constraints_graph k j k' [] h = refl
    order-constraints_graph k j k' (c ∷ cs) h =
        rw (blank_ne O injective k k' (omega arith))
          (order-constraints_graph k (suc j) (suc k') cs (omega arith))

    pub action-constraints_graph :
        (p : Term) (k j k' : ℕ) (cs : List ConstraintSpec)
        → at (constraints_graph O p j k' cs) k (odrl "action") ≡ []
    unfolding constraints_graph objects
    action-constraints_graph p k j k' [] = refl
    action-constraints_graph p k j k' (c ∷ cs) = action-constraints_graph p k (suc j) (suc k') cs

    pub at-constraint_nodes :
        (k j k' : ℕ) (cs : List ConstraintSpec)
        → at (constraints_graph O (node O k) j k' cs) k (odrl "constraint") ≡ constraint_nodes k' cs
    unfolding constraints_graph objects term_eq
    at-constraint_nodes k j k' [] = refl
    at-constraint_nodes k j k' (c ∷ cs) =
        rw (eq_refl (O.blank k))
          (ap (λ t. node O k' ∷ t) (at-constraint_nodes k (suc j) (suc k') cs))

    pub constraint_block-ConstraintAt :
        (p : Term) (j k : ℕ) (c : ConstraintSpec) (pre post : Graph)
        → IsBelow O injective k pre
        → ((q : String) → at post k q ≡ [])
        → ConstraintAt (pre ++ (constraint_block O p j k c ++ post)) j k c
    unfolding objects term_eq
    constraint_block-ConstraintAt p j k c pre post b a =
        let own =
          λ (q : String). objects_of_block k q pre (constraint_block O p j k c) post b (a q) in
        record {
          order = own (ds "order") ∙ rw (eq_refl (O.blank k));
          left = own (odrl "leftOperand") ∙ rw (eq_refl (O.blank k));
          operator = own (odrl "operator") ∙ rw (eq_refl (O.blank k));
          right = own (odrl "rightOperand") ∙ rw (eq_refl (O.blank k));
        }
