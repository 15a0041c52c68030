-- ===== src/Dataplane/Concurrent/Kept/Decided.antt =====
-- A step of a task, while the offer reads back, keeps what its request will be answered.
use ds_sql_dps_rs.Prelude.{
  String, ℕ, zero, suc, ◌≡◌, refl, ap, sym, ◌∙◌, subst, List, [], ◌∷◌, All, All-map, inl, inr, ◌==◌,
  eq_iff, Bool-cases, Result-cases,
}
use ds_sql_dps_rs.Rdf.{Quad}
use ds_sql_dps_rs.Oxigraph.{Oxigraph, IsInMemory}
use ds_sql_dps_rs.ConfigGraph.Offer.{PathBuf, unicode, to_string_lossy, FileOffer}
use ds_sql_dps_rs.ConfigGraph.Store.{file_path}
use ds_sql_dps_rs.ConfigGraph.Seed.{offer_quads}
use ds_sql_dps_rs.ConfigGraph.Seed.Quads.{IsVocabulary}
use ds_sql_dps_rs.ConfigGraph.RoundTrip.{ReadsBack}
use ds_sql_dps_rs.Dataplane.Tokens.{lookup}
use ds_sql_dps_rs.Dataplane.Handler.{DataFlow, FileOfferHandler, auto_offer}
use ds_sql_dps_rs.Dataplane.Public.{Engine, Response}
use ds_sql_dps_rs.Dataplane.System.{policy_answer, file_answer}
use ds_sql_dps_rs.Dataplane.Concurrent.{
  Visit, Task, get_asked, get_checked, get_permitted, get_located, get_done, start_asked,
  start_seeding, start_admitted, start_done, stop_asked, stop_done, check, permit, locate, deliver,
  look, seed, advance, turn,
}
use ds_sql_dps_rs.Dataplane.Concurrent.Explained.{
  Continues, checked, permitted, located, done, check-Continues, permit-Continues, locate-Continues,
}
use ds_sql_dps_rs.Dataplane.Concurrent.Moments.{Moment}
use ds_sql_dps_rs.Dataplane.Concurrent.Kept.Answered.{
  offer_answer, Settled, check-Settled, permit-Settled, locate-Settled, deliver-Settled, Decided,
  Determined,
}

module _ (O : Oxigraph) (M : IsInMemory O) (V : IsVocabulary O) (E : Engine)
    (offer : FileOffer) where
  Continues-Determined :
      (past : List (Moment O)) {v : Visit} {t : Task}
      → Continues v t
      → Decided O M V E offer past v t
      → Determined O M V E offer past t
  Continues-Determined past checked d = d
  Continues-Determined past permitted d = d
  Continues-Determined past (located path) d = d
  Continues-Determined past (done r) d = d

  Decided-later :
      (m : Moment O) (past : List (Moment O)) (v : Visit) (t : Task)
      → Decided O M V E offer past v t
      → Decided O M V E offer (m ∷ past) v t
  Decided-later m past v t (inl other) = inl other
  Decided-later m past v t (inr (r, decided, settled)) = inr (r, inr decided, settled)

  Determined-later :
      (m : Moment O) (past : List (Moment O)) (t : Task)
      → Determined O M V E offer past t
      → Determined O M V E offer (m ∷ past) t
  Determined-later m past (get_checked v) d = Decided-later m past v (get_checked v) d
  Determined-later m past (get_permitted v) d = Decided-later m past v (get_permitted v) d
  Determined-later m past (get_located v path) d = Decided-later m past v (get_located v path) d
  Determined-later m past (get_done v r) d = Decided-later m past v (get_done v r) d
  Determined-later m past (get_asked v) d = tt
  Determined-later m past (start_asked flow) d = tt
  Determined-later m past (start_seeding flow quads) d = tt
  Determined-later m past (start_admitted flow) d = tt
  Determined-later m past (start_done flow r) d = tt
  Determined-later m past (stop_asked flow) d = tt
  Determined-later m past (stop_done flow) d = tt

  module _ (m : Moment O) (past : List (Moment O))
      (reads : ReadsBack O M V m.world.graph offer) where
    -- The next step of a request that has begun.
    Decided-next :
        (v : Visit) (t t' : Task)
        → (v.dataset_id ≡ offer.dataset_id
            → (r : Response) → Settled O M V E offer r t
            → Settled O M V E offer r t')
        → Decided O M V E offer past v t
        → Decided O M V E offer (m ∷ past) v t'
    Decided-next v t t' f (inl other) = inl other
    Decided-next v t t' f (inr (r, decided, settled)) =
        elim (Bool-cases (v.dataset_id == offer.dataset_id)) [
          | inl e ↦ inr (r, inr decided, f ((eq_iff v.dataset_id offer.dataset_id).0 e) r settled)
          | inr e ↦ inl (λ same. cc (e, (eq_iff v.dataset_id offer.dataset_id).1 same))
        ]

    check-Decided : (v : Visit) → Decided O M V E offer (m ∷ past) v (check O v m.world)
    check-Decided v = elim (Bool-cases (v.dataset_id == offer.dataset_id)) [
      | inl e ↦
          let same = (eq_iff v.dataset_id offer.dataset_id).0 e in
          inr (
            offer_answer O E offer v (lookup v.token m.world.tokens),
            inl refl,
            subst
                (λ i.
                  Settled O M V E offer (offer_answer O E offer v (lookup v.token m.world.tokens))
                    (check O (record { env = v.env; dataset_id = i; token = v.token }) m.world))
                (sym same) (check-Settled O M V E offer v.env v.token m.world.graph reads m.world),
          )
      | inr e ↦ inl (λ same. cc (e, (eq_iff v.dataset_id offer.dataset_id).1 same))
    ]

    permit-next :
        (v : Visit)
        → v.dataset_id ≡ offer.dataset_id
        → (r : Response) → Settled O M V E offer r (get_checked v)
        → Settled O M V E offer r (permit O E v m.world.graph)
    permit-next v same r e =
        subst (λ x. Settled O M V E offer x (permit O E v m.world.graph)) (sym e)
          (subst
            (λ i.
              Settled O M V E offer (policy_answer O E v.env offer) (
                permit O E (record { env = v.env; dataset_id = i; token = v.token }) m.world.graph))
            (sym same) (permit-Settled O M V E offer v.env v.token m.world.graph reads))

    locate-next :
        (v : Visit)
        → v.dataset_id ≡ offer.dataset_id
        → (r : Response) → Settled O M V E offer r (get_permitted v)
        → Settled O M V E offer r (locate O v m.world.graph)
    locate-next v same r e =
        subst (λ x. Settled O M V E offer x (locate O v m.world.graph)) (sym e)
          (subst
            (λ i.
              Settled O M V E offer (file_answer O E v.env offer)
                (locate O (record { env = v.env; dataset_id = i; token = v.token }) m.world.graph))
            (sym same) (locate-Settled O M V E offer v.env v.token m.world.graph reads))

    deliver-next :
        (v : Visit) (path : PathBuf)
        → v.dataset_id ≡ offer.dataset_id
        → (r : Response) → Settled O M V E offer r (get_located v path)
        → deliver O v path m.world.graph ≡ r
    deliver-next v path same r (there, e) =
        ap (λ p. deliver O v p m.world.graph) there
        ∙ ap
            (λ i.
              deliver O (record { env = v.env; dataset_id = i; token = v.token })
                (unicode (to_string_lossy offer.file_path)) m.world.graph)
            same
        ∙ deliver-Settled O M V E offer v.env v.token m.world.graph reads
        ∙ sym e

    module _ (uuid : ℕ → String) (h : FileOfferHandler) where
      look-Determined :
          (flow : DataFlow) → Determined O M V E offer (m ∷ past) (look O h flow m.world).0
      look-Determined flow = elim (Result-cases (file_path O flow.dataset_id m.world.graph)) [
        | inl (path, p) ↦ rw (p, look) tt
        | inr (e, p) ↦ elim (Bool-cases h.tck_mode) [
          | inr q ↦ rw (p, q, look) tt
          | inl q ↦ elim (Result-cases (offer_quads O m.world.graph.blanks (auto_offer O h flow))) [
            | inr (x, r) ↦ rw (p, q, r, look) tt
            | inl (made, r) ↦ rw (p, q, r, look) tt
          ]
        ]
      ]

      seed-Determined :
          (flow : DataFlow) (q : Quad) (rest : List Quad)
          → Determined O M V E offer (m ∷ past) (seed O flow q rest m.world).0
      seed-Determined flow q rest = elim (Result-cases (O.insert m.world.graph.store q)) [
        | inr (e, p) ↦ rw (p, seed) tt
        | inl (s, p) ↦ rw (p, seed) tt
      ]

      advance-Determined :
          (t : Task)
          → Determined O M V E offer past t
          → Determined O M V E offer (m ∷ past) (advance O E uuid h t m.world).0
      unfolding advance
      advance-Determined (get_asked v) d =
          Continues-Determined (m ∷ past) (check-Continues O v m.world) (check-Decided v)
      advance-Determined (get_checked v) d =
          Continues-Determined (m ∷ past) (permit-Continues O E v m.world.graph)
            (Decided-next v (get_checked v) (permit O E v m.world.graph) (permit-next v) d)
      advance-Determined (get_permitted v) d =
          Continues-Determined (m ∷ past) (locate-Continues O v m.world.graph)
            (Decided-next v (get_permitted v) (locate O v m.world.graph) (locate-next v) d)
      advance-Determined (get_located v path) d =
          Decided-next v (get_located v path) (get_done v (deliver O v path m.world.graph))
            (deliver-next v path) d
      advance-Determined (get_done v r) d = Decided-later m past v (get_done v r) d
      advance-Determined (start_asked flow) d = look-Determined flow
      advance-Determined (start_seeding flow []) d = tt
      advance-Determined (start_seeding flow (q ∷ rest)) d = seed-Determined flow q rest
      advance-Determined (start_admitted flow) d = tt
      advance-Determined (start_done flow r) d = tt
      advance-Determined (stop_asked flow) d = tt
      advance-Determined (stop_done flow) d = tt

      pub turn-Determined :
          (n : ℕ) (ts : List Task)
          → All (Determined O M V E offer past) ts
          → All (Determined O M V E offer (m ∷ past)) (turn O E uuid h n ts m.world).0
      unfolding turn
      turn-Determined n [] d = tt
      turn-Determined zero (t ∷ ts) (d, ds) = (
        advance-Determined t d,
        All-map (Determined O M V E offer past) (Determined O M V E offer (m ∷ past))
            (Determined-later m past) ts ds,
      )
      turn-Determined (suc n) (t ∷ ts) (d, ds) =
          (Determined-later m past t d, turn-Determined n ts ds)
