-- ===== src/Sparql/Laws.antt =====
-- A basic graph pattern over the objects that a subject has for a predicate.
use ds_sql_dps_rs.Prelude.{
  String, ◌≡◌, refl, ◌∙◌, ap, none, some, List, [], ◌∷◌, ◌++◌, map, flat_map, filter_map, ◌==◌,
  ◌&&◌, if◌then◌else◌, arith,
}
use mathlib.Core.List.{append-nil}
use ds_sql_dps_rs.Rdf.{Term, named_node, term_eq, Graph}
use ds_sql_dps_rs.Sparql.{iri, var, TriplePattern, Solution, get, match_quad, basic_pattern}

-- The objects of the quads with this subject and predicate, in the order of the list.
unfoldable pub objects : Term → String → Graph → List Term
objects s p [] = []
objects s p (q ∷ g) =
    let rest = objects s p g in
    if p == q.predicate && term_eq s q.subject then q.object ∷ rest else rest

pub objects-append :
    (s : Term) (p : String) (g h : Graph) → objects s p (g ++ h) ≡ objects s p g ++ objects s p h
unfolding objects
objects-append s p [] h = refl
objects-append s p (q ∷ g) h = ground (arith, objects-append s p g h)

pub flat_map-map {ℓ κ μ} :
    {A : Type ℓ} {B : Type κ} {C : Type μ} (f : B → List C) (g : A → B) (xs : List A)
    → flat_map f (map g xs) ≡ flat_map (λ x. f (g x)) xs
flat_map-map f g [] = refl
flat_map-map f g (x ∷ xs) = rw (flat_map-map f g xs)

-- A solution with one more variable.
abbrev pub bind : String → Solution → Term → Solution
bind v sol t = (v, t) ∷ sol

pub basic_pattern-nil : (g : Graph) (sol : Solution) → basic_pattern g [] sol ≡ sol ∷ []
unfolding basic_pattern
basic_pattern-nil g sol = refl

module _ (sol : Solution) (p v : String) (free : get v sol ≡ none) where
  match-iri :
      (i : String) (g : Graph)
      → filter_map (match_quad (record { subject = iri i; predicate = p; object = var v }) sol) g
        ≡ map (bind v sol) (objects (named_node i) p g)
  unfolding match_quad objects
  match-iri i [] = refl
  match-iri i (q ∷ g) = ground (arith, match-iri i g)

  match-var :
      (u : String) (s : Term) (g : Graph)
      → get u sol ≡ some s
      → filter_map (match_quad (record { subject = var u; predicate = p; object = var v }) sol) g
        ≡ map (bind v sol) (objects s p g)
  unfolding match_quad objects
  match-var u s [] bound = refl
  match-var u s (q ∷ g) bound = ground (arith, match-var u s g bound)

  -- A triple with an IRI for its subject binds its variable to each of the objects.
  pub basic_pattern-iri :
      (i : String) (pats : List TriplePattern) (g : Graph)
      → basic_pattern g (record { subject = iri i; predicate = p; object = var v } ∷ pats) sol
        ≡ flat_map (λ t. basic_pattern g pats (bind v sol t)) (objects (named_node i) p g)
  unfolding basic_pattern
  basic_pattern-iri i pats g =
      ap (flat_map (basic_pattern g pats)) (match-iri i g)
      ∙ flat_map-map (basic_pattern g pats) (bind v sol) (objects (named_node i) p g)

  -- So does one whose subject is a bound variable.
  pub basic_pattern-var :
      (u : String) (s : Term) (pats : List TriplePattern) (g : Graph)
      → get u sol ≡ some s
      → basic_pattern g (record { subject = var u; predicate = p; object = var v } ∷ pats) sol
        ≡ flat_map (λ t. basic_pattern g pats (bind v sol t)) (objects s p g)
  unfolding basic_pattern
  basic_pattern-var u s pats g bound =
      ap (flat_map (basic_pattern g pats)) (match-var u s g bound)
      ∙ flat_map-map (basic_pattern g pats) (bind v sol) (objects s p g)

  -- With one object there is one way on.
  pub basic_pattern-single :
      (u : String) (s t : Term) (pats : List TriplePattern) (g : Graph)
      → get u sol ≡ some s
      → objects s p g ≡ t ∷ []
      → basic_pattern g (record { subject = var u; predicate = p; object = var v } ∷ pats) sol
        ≡ basic_pattern g pats (bind v sol t)
  basic_pattern-single u s t pats g bound one =
      basic_pattern-var u s pats g bound
      ∙ ap (flat_map (λ t. basic_pattern g pats (bind v sol t))) one
      ∙ append-nil (basic_pattern g pats (bind v sol t))
