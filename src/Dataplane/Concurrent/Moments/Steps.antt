-- ===== src/Dataplane/Concurrent/Moments/Steps.antt =====
-- A step of a task, in either mode, keeps what it goes by.
use ds_sql_dps_rs.Prelude.{
  String, ℕ, zero, suc, true, ◌≡◌, refl, List, [], ◌∷◌, All, All-map, inl, inr, ◌==◌, eq_iff, arith,
  Bool-cases, Option-cases, Result-cases, ok, err,
}
use ds_sql_dps_rs.Rdf.{Quad}
use ds_sql_dps_rs.Oxigraph.{Oxigraph}
use ds_sql_dps_rs.ConfigGraph.Offer.{PathBuf}
use ds_sql_dps_rs.ConfigGraph.Store.{file_path, media_type}
use ds_sql_dps_rs.ConfigGraph.Policy.{policy_jsonld}
use ds_sql_dps_rs.ConfigGraph.Seed.{offer_quads}
use ds_sql_dps_rs.Dataplane.Tokens.{lookup, issue, revoke_flow}
use ds_sql_dps_rs.Dataplane.Handler.{DataFlow, FileOfferHandler, auto_offer}
use ds_sql_dps_rs.Dataplane.Public.{Engine, engine_request, media_or_default}
use ds_sql_dps_rs.Dataplane.Public.Laws.{WireDecision-cases}
use ds_sql_dps_rs.Dataplane.Concurrent.{
  Visit, Task, get_asked, get_checked, get_permitted, get_located, get_done, start_asked,
  start_seeding, start_admitted, start_done, stop_asked, stop_done, check, permit, locate, deliver,
  look, seed, advance, turn,
}
use ds_sql_dps_rs.Dataplane.Concurrent.Moments.{Moment, Justified}

module _ (O : Oxigraph) (E : Engine) (uuid : ℕ → String) (h : FileOfferHandler) where
  -- What has happened stays so.
  Justified-later :
      (m : Moment O) (past : List (Moment O)) (t : Task)
      → Justified O E uuid h past t
      → Justified O E uuid h (m ∷ past) t
  Justified-later m past (get_checked v) j = inr j
  Justified-later m past (get_permitted v) j = inr j
  Justified-later m past (get_located v path) j = inr j
  Justified-later m past (get_done v r) (inl j) = inl j
  Justified-later m past (get_done v r) (inr j) = inr (inr j)
  Justified-later m past (start_seeding flow quads) j = j
  Justified-later m past (start_admitted flow) (inl j) = inl (inr j)
  Justified-later m past (start_admitted flow) (inr j) = inr j
  Justified-later m past (start_done flow (ok message)) j = inr j
  Justified-later m past (start_done flow (err e)) j = tt
  Justified-later m past (get_asked v) j = tt
  Justified-later m past (start_asked flow) j = tt
  Justified-later m past (stop_asked flow) j = tt
  Justified-later m past (stop_done flow) j = tt

  module _ (m : Moment O) (past : List (Moment O)) where
    check-Justified : (v : Visit) → Justified O E uuid h (m ∷ past) (check O v m.world)
    check-Justified v = elim (Option-cases (lookup v.token m.world.tokens)) [
      | inl p ↦ rw (p, check) (inl (λ good. absurd (ground (arith, good))))
      | inr (entry, p) ↦ elim (Bool-cases (entry.dataset_id == v.dataset_id)) [
        | inl q ↦
            rw (p, q, check)
              (inl (record {
                entry = entry;
                known = p;
                for_dataset = (eq_iff entry.dataset_id v.dataset_id).0 q;
              }))
        | inr q ↦ rw (p, q, check) (inl (λ good. absurd (ground (arith, good))))
      ]
    ]

    permit-Justified :
        (v : Visit)
        → Justified O E uuid h past (get_checked v)
        → Justified O E uuid h (m ∷ past) (permit O E v m.world.graph)
    permit-Justified v j = elim (Result-cases (policy_jsonld O v.dataset_id m.world.graph)) [
      | inr (e, p) ↦ rw (p, permit) (inl (λ good. absurd (ground (arith, good))))
      | inl (doc, p) ↦ elim (Result-cases (E.ingest_policy_value doc)) [
        | inr (e, q) ↦ rw (p, q, permit) (inl (λ good. absurd (ground (arith, good))))
        | inl (policy, q) ↦
            elim (WireDecision-cases
              (E.evaluate_request (engine_request O E v.env.now policy v.dataset_id)).0) [
                | inr d ↦ rw (p, q, d, permit) (inl (λ good. absurd (ground (arith, good))))
                | inl d ↦
                    rw (p, q, d, permit)
                      (inl (
                        record {
                          document = doc;
                          read_policy = p;
                          policy = policy;
                          ingested = q;
                          decision = d;
                        },
                        j,
                      ))
              ]
      ]
    ]

    locate-Justified :
        (v : Visit)
        → Justified O E uuid h past (get_permitted v)
        → Justified O E uuid h (m ∷ past) (locate O v m.world.graph)
    locate-Justified v j = elim (Result-cases (file_path O v.dataset_id m.world.graph)) [
      | inr (e, p) ↦ rw (p, locate) (inl (λ good. absurd (ground (arith, good))))
      | inl (path, p) ↦ rw (p, locate) (inl (p, j))
    ]

    deliver-Justified :
        (v : Visit) (path : PathBuf)
        → Justified O E uuid h past (get_located v path)
        → Justified O E uuid h (m ∷ past) (get_done v (deliver O v path m.world.graph))
    deliver-Justified v path j =
        let kind = media_or_default (media_type O v.dataset_id m.world.graph) in
        elim (Result-cases (v.env.read path)) [
          | inr (e, p) ↦ rw (p, deliver) (inl (λ good. absurd (ground (arith, good))))
          | inl (content, p) ↦ elim (Option-cases (v.env.header_error kind)) [
            | inr (e, q) ↦ rw (p, q, deliver) (inl (λ good. absurd (ground (arith, good))))
            | inl q ↦
                rw (p, q, deliver)
                  (inr (inl (path, record { content = content; read = p; answer = refl }, j)))
          ]
        ]

    look-Justified : (flow : DataFlow) → Justified O E uuid h (m ∷ past) (look O h flow m.world).0
    look-Justified flow = elim (Result-cases (file_path O flow.dataset_id m.world.graph)) [
      | inl (path, p) ↦ rw (p, look) (inl (inl (path, p)))
      | inr (e, p) ↦ elim (Bool-cases h.tck_mode) [
        | inr q ↦ rw (p, q, look) tt
        | inl q ↦ elim (Result-cases (offer_quads O m.world.graph.blanks (auto_offer O h flow))) [
          | inr (x, r) ↦ rw (p, q, r, look) tt
          | inl (made, r) ↦ rw (p, q, r, look) refl
        ]
      ]
    ]

    seed-Justified :
        (flow : DataFlow) (q : Quad) (rest : List Quad)
        → h.tck_mode ≡ true
        → Justified O E uuid h (m ∷ past) (seed O flow q rest m.world).0
    seed-Justified flow q rest tck = elim (Result-cases (O.insert m.world.graph.store q)) [
      | inr (e, p) ↦ rw (p, seed) tt
      | inl (store, p) ↦ rw (p, seed) tck
    ]

    advance-Justified :
        (t : Task)
        → Justified O E uuid h past t
        → Justified O E uuid h (m ∷ past) (advance O E uuid h t m.world).0
    unfolding advance ds_sql_dps_rs.Dataplane.Tokens.issue
    advance-Justified (get_asked v) j = check-Justified v
    advance-Justified (get_checked v) j = permit-Justified v j
    advance-Justified (get_permitted v) j = locate-Justified v j
    advance-Justified (get_located v path) j = deliver-Justified v path j
    advance-Justified (get_done v r) j = Justified-later m past (get_done v r) j
    advance-Justified (start_asked flow) j = look-Justified flow
    advance-Justified (start_seeding flow []) j = inr j
    advance-Justified (start_seeding flow (q ∷ rest)) j = seed-Justified flow q rest j
    advance-Justified (start_admitted flow) j = inl (refl, j)
    advance-Justified (start_done flow r) j = Justified-later m past (start_done flow r) j
    advance-Justified (stop_asked flow) j = tt
    advance-Justified (stop_done flow) j = tt

    pub turn-Justified :
        (n : ℕ) (ts : List Task)
        → All (Justified O E uuid h past) ts
        → All (Justified O E uuid h (m ∷ past)) (turn O E uuid h n ts m.world).0
    unfolding turn
    turn-Justified n [] j = tt
    turn-Justified zero (t ∷ ts) (j, js) = (
      advance-Justified t j,
      All-map (Justified O E uuid h past) (Justified O E uuid h (m ∷ past)) (Justified-later m past)
          ts js,
    )
    turn-Justified (suc n) (t ∷ ts) (j, js) = (Justified-later m past t j, turn-Justified n ts js)
