-- ===== src/Dataplane/Concurrent/Moments/Laws.antt =====
-- In either mode, whatever the order of the steps: the tokens are those of the operations, and each
-- answer goes back to what happened.
use ds_sql_dps_rs.Prelude.{
  String, ℕ, zero, suc, ◌≡◌, ap, ◌∙◌, List, [], ◌∷◌, ◌++◌, All, inl, inr, Bool-cases, Result-cases,
}
use ds_sql_dps_rs.Rdf.{Quad}
use ds_sql_dps_rs.Oxigraph.{Oxigraph}
use ds_sql_dps_rs.ConfigGraph.Store.{file_path}
use ds_sql_dps_rs.ConfigGraph.Seed.{offer_quads}
use ds_sql_dps_rs.Dataplane.Tokens.{issue, revoke_flow}
use ds_sql_dps_rs.Dataplane.Tokens.Laws.{Op, run}
use ds_sql_dps_rs.Dataplane.Handler.{World, DataFlow, FileOfferHandler, auto_offer}
use ds_sql_dps_rs.Dataplane.Public.{Engine}
use ds_sql_dps_rs.Dataplane.Concurrent.{
  Task, get_asked, get_checked, get_permitted, get_located, get_done, start_asked, start_seeding,
  start_admitted, start_done, stop_asked, stop_done, look, seed, advance, turn, interleave,
}
use ds_sql_dps_rs.Dataplane.Concurrent.Explained.{IsFresh}
use ds_sql_dps_rs.Dataplane.Concurrent.Moments.Steps.{turn-Justified}
use ds_sql_dps_rs.Dataplane.Concurrent.Moments.{op_of, op_at, Moment, watch, Justified}

module _ (O : Oxigraph) (E : Engine) (uuid : ℕ → String) (h : FileOfferHandler) where
  -- A step does to the tokens what its operation does.
  look-tokens : (flow : DataFlow) (w : World O) → (look O h flow w).1.tokens ≡ w.tokens
  look-tokens flow w = elim (Result-cases (file_path O flow.dataset_id w.graph)) [
    | inl (path, p) ↦ rw (p, look)
    | inr (e, p) ↦ elim (Bool-cases h.tck_mode) [
      | inr q ↦ rw (p, q, look)
      | inl q ↦ elim (Result-cases (offer_quads O w.graph.blanks (auto_offer O h flow))) [
        | inr (x, r) ↦ rw (p, q, r, look)
        | inl (made, r) ↦ rw (p, q, r, look)
      ]
    ]
  ]

  seed-tokens :
      (flow : DataFlow) (q : Quad) (rest : List Quad) (w : World O)
      → (seed O flow q rest w).1.tokens ≡ w.tokens
  seed-tokens flow q rest w = elim (Result-cases (O.insert w.graph.store q)) [
    | inr (e, p) ↦ rw (p, seed)
    | inl (store, p) ↦ rw (p, seed)
  ]

  advance-tokens :
      (t : Task) (w : World O) (ops : List Op)
      → w.tokens ≡ run uuid ops
      → (advance O E uuid h t w).1.tokens ≡ run uuid (op_of t ++ ops)
  unfolding advance run
  advance-tokens (get_asked v) w ops e = e
  advance-tokens (get_checked v) w ops e = e
  advance-tokens (get_permitted v) w ops e = e
  advance-tokens (get_located v path) w ops e = e
  advance-tokens (get_done v r) w ops e = e
  advance-tokens (start_asked flow) w ops e = look-tokens flow w ∙ e
  advance-tokens (start_seeding flow []) w ops e = e
  advance-tokens (start_seeding flow (q ∷ rest)) w ops e = seed-tokens flow q rest w ∙ e
  advance-tokens (start_admitted flow) w ops e =
      ap (λ s. (issue uuid flow.id flow.dataset_id s).1) e
  advance-tokens (start_done flow r) w ops e = e
  advance-tokens (stop_asked flow) w ops e = ap (revoke_flow flow.id) e
  advance-tokens (stop_done flow) w ops e = e

  turn-tokens :
      (n : ℕ) (ts : List Task) (w : World O) (ops : List Op)
      → w.tokens ≡ run uuid ops
      → (turn O E uuid h n ts w).1.tokens ≡ run uuid (op_at n ts ++ ops)
  unfolding turn
  turn-tokens n [] w ops e = e
  turn-tokens zero (t ∷ ts) w ops e = advance-tokens t w ops e
  turn-tokens (suc n) (t ∷ ts) w ops e = turn-tokens n ts w ops e

  abbrev IsTrue : Moment O → Type 0
  IsTrue m = m.world.tokens ≡ run uuid m.ops

  watch-tokens :
      (ns : List ℕ) (ts : List Task) (w : World O) (ops : List Op) (past : List (Moment O))
      → w.tokens ≡ run uuid ops
      → All IsTrue past
      → ((interleave O E uuid h ns ts w).1.tokens ≡ run uuid (watch O E uuid h ns ts w ops past).1)
        × All IsTrue (watch O E uuid h ns ts w ops past).0
  unfolding interleave watch
  watch-tokens [] ts w ops past e true_past = (e, true_past)
  watch-tokens (n ∷ ns) ts w ops past e true_past =
      let m : Moment O = record { world = w; ops = ops } in
      let next = turn O E uuid h n ts w in
      watch-tokens ns next.0 next.1 (op_at n ts ++ ops) (m ∷ past) (turn-tokens n ts w ops e)
        (e, true_past)

  watch-Justified :
      (ns : List ℕ) (ts : List Task) (w : World O) (ops : List Op) (past : List (Moment O))
      → All (Justified O E uuid h past) ts
      → All
          (Justified O E uuid h (watch O E uuid h ns ts w ops past).0)
          (interleave O E uuid h ns ts w).0
  unfolding interleave watch
  watch-Justified [] ts w ops past j = j
  watch-Justified (n ∷ ns) ts w ops past j =
      let m : Moment O = record { world = w; ops = ops } in
      let next = turn O E uuid h n ts w in
      watch-Justified ns next.0 next.1 (op_at n ts ++ ops) (m ∷ past)
        (turn-Justified O E uuid h m past n ts j)

  fresh-Justified : (ts : List Task) → All IsFresh ts → All (Justified O E uuid h []) ts
  fresh-Justified [] f = tt
  fresh-Justified (get_asked v ∷ ts) f = (tt, fresh-Justified ts f.1)
  fresh-Justified (start_asked flow ∷ ts) f = (tt, fresh-Justified ts f.1)
  fresh-Justified (stop_asked flow ∷ ts) f = (tt, fresh-Justified ts f.1)
  fresh-Justified (get_checked v ∷ ts) f = absurd f.0
  fresh-Justified (get_permitted v ∷ ts) f = absurd f.0
  fresh-Justified (get_located v path ∷ ts) f = absurd f.0
  fresh-Justified (get_done v r ∷ ts) f = absurd f.0
  fresh-Justified (start_seeding flow quads ∷ ts) f = absurd f.0
  fresh-Justified (start_admitted flow ∷ ts) f = absurd f.0
  fresh-Justified (start_done flow r ∷ ts) f = absurd f.0
  fresh-Justified (stop_done flow ∷ ts) f = absurd f.0

  pub interleave-fresh :
      (ns : List ℕ) (ts : List Task) (w : World O) (ops : List Op)
      → All IsFresh ts
      → All
          (Justified O E uuid h (watch O E uuid h ns ts w ops []).0)
          (interleave O E uuid h ns ts w).0
  interleave-fresh ns ts w ops fresh = watch-Justified ns ts w ops [] (fresh-Justified ts fresh)

  -- On any store, in either mode, from any tokens that some operations have made, with fresh requests,
  -- starts and terminations that run at the same time, step by step in any order: at each moment the
  -- tokens are those of the operations so far, a start's or a termination's step each. A request that
  -- has been answered with 200 was answered with the file at a path that the graph gave at an earlier
  -- moment; before that the engine allowed the policy that the graph held, and before that the token
  -- was good for the dataset. A start that has succeeded carries the token that was made at that
  -- moment, and before that the graph had a file for its dataset, or the handler is in TCK mode.
  pub interleave-Justified :
      (ns : List ℕ) (ts : List Task) (w : World O) (ops : List Op)
      → w.tokens ≡ run uuid ops
      → All IsFresh ts
      → ((interleave O E uuid h ns ts w).1.tokens ≡ run uuid (watch O E uuid h ns ts w ops []).1)
        × All (λ m. m.world.tokens ≡ run uuid m.ops) (watch O E uuid h ns ts w ops []).0
        × All
            (Justified O E uuid h (watch O E uuid h ns ts w ops []).0)
            (interleave O E uuid h ns ts w).0
  interleave-Justified ns ts w ops e fresh =
      let tokens = watch-tokens ns ts w ops [] e tt in
      (tokens.0, tokens.1, interleave-fresh ns ts w ops fresh)
