-- ===== src/ConfigGraph/Seed/Errors.antt =====
-- How `seed_offer` of config-graph/src/store.rs fails, on any store.
use ds_sql_dps_rs.Prelude.{
  String, ℕ, suc, ◌≡◌, refl, ap, sym, ◌∙◌, ◌⊎◌, inl, inr, List, [], ◌∷◌, ◌++◌, Result, ok, err,
  ◌>>=◌, Result-cases, Bool-cases,
}
use ds_sql_dps_rs.Rdf.{Term, Quad}
use ds_sql_dps_rs.Oxigraph.{Oxigraph}
use ds_sql_dps_rs.ConfigGraph.Offer.{FileOffer, PermissionSpec, ConstraintSpec}
use ds_sql_dps_rs.ConfigGraph.Store.{
  ConfigGraphError, invalid_iri, storage, policy_iri, ConfigGraph, new_named_node,
}
use ds_sql_dps_rs.ConfigGraph.Seed.{
  constraint_quads, permission_quads, header_quads, insert_quads, offer_quads, seed_offer,
}

-- A result that is an invalid IRI if it is an error.
data IriOnly {ℓ} {A : Type ℓ} : Result ConfigGraphError A → Type ℓ where
  value : (a : A) → IriOnly (ok a)
  invalid : (e : String) → IriOnly (err (invalid_iri e))

IriOnly-bind {ℓ κ} :
    {A : Type ℓ} {B : Type κ} {m : Result ConfigGraphError A} {f : A → Result ConfigGraphError B}
    → IriOnly m
    → ((a : A) → IriOnly (f a))
    → IriOnly (m >>= f)
IriOnly-bind (value a) h = h a
IriOnly-bind (invalid e) h = invalid e

IriOnly-err {ℓ} :
    {A : Type ℓ} {r : Result ConfigGraphError A} {e : ConfigGraphError}
    → IriOnly r
    → r ≡ err e
    → (m : String) × (e ≡ invalid_iri m)
IriOnly-err (value a) h = cc
IriOnly-err (invalid m) h = (m, cc)

module _ (O : Oxigraph) where
  new_named_node-IriOnly : (s : String) → IriOnly (new_named_node O s)
  unfolding new_named_node
  new_named_node-IriOnly s = elim (Bool-cases (O.is_iri s)) [
    | inl e ↦ rw e (value s)
    | inr e ↦ rw e (invalid (O.iri_error s))
  ]

  -- The rule for `NamedNode::new(…)?`.
  named {ℓ} :
      {A : Type ℓ} (s : String) {f : String → Result ConfigGraphError A}
      → ((i : String) → IriOnly (f i))
      → IriOnly (new_named_node O s >>= f)
  named s h = IriOnly-bind (new_named_node-IriOnly s) h

  constraint_quads-IriOnly :
      (p : Term) (j k : ℕ) (integer : String) (cs : List ConstraintSpec)
      → IriOnly (constraint_quads O p j k integer cs)
  unfolding constraint_quads
  constraint_quads-IriOnly p j k integer [] = value _
  constraint_quads-IriOnly p j k integer (c ∷ cs) = named _ λ _. named _ λ _. named _ λ _.
      named _ λ _.
        named _
          λ _. IriOnly-bind (constraint_quads-IriOnly p (suc j) (suc k) integer cs) (λ r. value _)

  permission_quads-IriOnly :
      (policy : String) (i k : ℕ) (integer : String) (ps : List PermissionSpec)
      → IriOnly (permission_quads O policy i k integer ps)
  unfolding permission_quads
  permission_quads-IriOnly policy i k integer [] = value _
  permission_quads-IriOnly policy i k integer (p ∷ ps) = named _ λ _. named _ λ _. named _ λ _.
      named _ λ _. named _ λ _.
        IriOnly-bind (constraint_quads-IriOnly _ 0 (suc k) integer p.constraints)
          λ r. IriOnly-bind (permission_quads-IriOnly policy (suc i) r.1 integer ps) (λ r'. value _)

  header_quads-IriOnly : (offer : FileOffer) → IriOnly (header_quads O offer)
  unfolding header_quads
  header_quads-IriOnly offer = named _ λ _. named _ λ _. named _ λ _. named _ λ _. named _ λ _.
      named _ λ _.
        named _
          λ _. named _ λ _. named _ λ _. named _ λ _. named _ λ _. named _ λ _. named _ λ _. value _

  offer_quads-IriOnly : (k : ℕ) (offer : FileOffer) → IriOnly (offer_quads O k offer)
  unfolding offer_quads
  offer_quads-IriOnly k offer = IriOnly-bind (header_quads-IriOnly offer) λ header.
      named _ λ integer.
        IriOnly-bind
          (permission_quads-IriOnly (policy_iri offer.dataset_id) 0 k integer offer.permissions)
          (λ r. value _)

  -- Inserting stopped at a quad that the store refused.
  pub record Stopped (s : O.Store) (qs : List Quad) (e : ConfigGraphError) (s' : O.Store)
      : Type 0 where
    pub before : List Quad
    pub quad : Quad
    pub after : List Quad
    pub split : qs ≡ before ++ (quad ∷ after)
    pub inserted : insert_quads O s before ≡ (ok tt, s')
    pub message : String
    pub refused : O.insert s' quad ≡ err message
    pub error : e ≡ storage message

  insert_quads-Stopped :
      (s : O.Store) (qs : List Quad) (e : ConfigGraphError) (s' : O.Store)
      → insert_quads O s qs ≡ (err e, s')
      → Stopped s qs e s'
  unfolding insert_quads
  insert_quads-Stopped s [] e s' h =
      let clash : Path (Result ConfigGraphError (Unit {0})) (ok tt) (err e) = ap (λ r. r.0) h in
      absurd (cc clash)
  insert_quads-Stopped s (q ∷ qs) e s' h = elim (Result-cases (O.insert s q)) [
    | inr (m, p) ↦
        let stop : insert_quads O s (q ∷ qs) ≡ (err (storage m), s) = rw (p, insert_quads) in
        let same : s ≡ s' = ap (λ r. r.1) (sym stop ∙ h) in
        let cause : Path (Result ConfigGraphError (Unit {0})) (err (storage m)) (err e) =
          ap (λ r. r.0) (sym stop ∙ h) in
        record {
          before = [];
          quad = q;
          after = qs;
          split = refl;
          inserted = ap (λ x. (ok tt, x)) same;
          message = m;
          refused = ap (λ x. O.insert x q) (sym same) ∙ p;
          error = cc cause;
        }
    | inl (s1, p) ↦
        let step : insert_quads O s (q ∷ qs) ≡ insert_quads O s1 qs = rw (p, insert_quads) in
        let r = insert_quads-Stopped s1 qs e s' (sym step ∙ h) in
        record {
          before = q ∷ r.before;
          quad = r.quad;
          after = r.after;
          split = ap (λ t. q ∷ t) r.split;
          inserted = rw (p, insert_quads) r.inserted;
          message = r.message;
          refused = r.refused;
          error = r.error;
        }
  ]

  -- On any store, if `seed_offer` fails, then either an IRI is invalid, and nothing has changed, or
  -- the store refused a quad, and it holds exactly the quads of the offer before that one.
  pub seed_offer_err :
      (offer : FileOffer) (w w' : ConfigGraph O) (e : ConfigGraphError)
      → seed_offer O offer w ≡ (err e, w')
      → ((m : String) × (e ≡ invalid_iri m) × (w' ≡ w))
        ⊎ ((r : List Quad × ℕ) × (offer_quads O w.blanks offer ≡ ok r)
            × Stopped w.store r.0 e w'.store)
  unfolding seed_offer
  seed_offer_err offer w w' e h = elim (Result-cases (offer_quads O w.blanks offer)) [
    | inr (x, p) ↦
        let failed : seed_offer O offer w ≡ (err x, w) = rw (p, seed_offer) in
        let cause : Path (Result ConfigGraphError (Unit {0})) (err x) (err e) =
          ap (λ r. r.0) (sym failed ∙ h) in
        let (m, iri) = IriOnly-err (offer_quads-IriOnly w.blanks offer) p in
        inl (m, cc (cause, iri), ap (λ r. r.1) (sym h ∙ failed))
    | inl (r, p) ↦
        let ran : seed_offer O offer w ≡ (
          (insert_quads O w.store r.0).0,
          record { store = (insert_quads O w.store r.0).1; blanks = r.1 },
        ) =
          rw (p, seed_offer) in
        inr (
          r,
          p,
          insert_quads-Stopped w.store r.0 e w'.store (ap (λ x. (x.0, x.1.store)) (sym ran ∙ h)),
        )
  ]
