-- ===== src/Dataplane/Concurrent/Finish.antt =====
-- Every task comes to its end, however the others go on.
use ds_sql_dps_rs.Prelude.{
  String, ℕ, zero, suc, ◌+◌, ◌-◌, ◌≤◌, ◌<◌, ◌≡◌, List, [], ◌∷◌, length, All, ◌==◌, nat_eq,
  if◌then◌else◌, arith, Bool-cases, Option-cases, Result-cases, inl, inr,
}
use ds_sql_dps_rs.Rdf.{Quad}
use ds_sql_dps_rs.Oxigraph.{Oxigraph}
use ds_sql_dps_rs.ConfigGraph.Store.{ConfigGraph, file_path}
use ds_sql_dps_rs.ConfigGraph.Policy.{policy_jsonld}
use ds_sql_dps_rs.Dataplane.Tokens.{lookup}
use ds_sql_dps_rs.ConfigGraph.Seed.{offer_quads}
use ds_sql_dps_rs.ConfigGraph.Seed.Count.{quad_count, length-offer_quads}
use ds_sql_dps_rs.Dataplane.Handler.{World, DataFlow, FileOfferHandler, auto_offer}
use ds_sql_dps_rs.Dataplane.Public.{Engine, engine_request}
use ds_sql_dps_rs.Dataplane.Public.Laws.{WireDecision-cases}
use ds_sql_dps_rs.Dataplane.Concurrent.{
  Visit, Task, get_asked, get_checked, get_permitted, get_located, get_done, start_asked,
  start_seeding, start_admitted, start_done, stop_asked, stop_done, check, permit, locate, look,
  seed, advance, turn, interleave,
}
use ds_sql_dps_rs.Dataplane.Concurrent.Explained.{IsFresh}
use ds_sql_dps_rs.Dataplane.Concurrent.Moves.{look-refused}

-- How many steps it takes at most to seed an unknown dataset: one for each quad, and one more.
abbrev pub seeding_steps : FileOfferHandler → ℕ
seeding_steps h = if h.tck_mode then 1 + quad_count h.default_offer else 0

-- How many steps a task has left at most, where seeding takes `k`.
abbrev steps_left : ℕ → Task → ℕ
steps_left k (get_asked v) = 4
steps_left k (get_checked v) = 3
steps_left k (get_permitted v) = 2
steps_left k (get_located v path) = 1
steps_left k (get_done v r) = 0
steps_left k (start_asked flow) = 2 + k
steps_left k (start_seeding flow quads) = 2 + length quads
steps_left k (start_admitted flow) = 1
steps_left k (start_done flow r) = 0
steps_left k (stop_asked flow) = 1
steps_left k (stop_done flow) = 0

abbrev pub IsDone : Task → Type 0
IsDone (get_done v r) = Unit
IsDone (start_done flow r) = Unit
IsDone (stop_done flow) = Unit
IsDone (get_asked v) = ⊥
IsDone (get_checked v) = ⊥
IsDone (get_permitted v) = ⊥
IsDone (get_located v path) = ⊥
IsDone (start_asked flow) = ⊥
IsDone (start_seeding flow quads) = ⊥
IsDone (start_admitted flow) = ⊥
IsDone (stop_asked flow) = ⊥

steps_left-IsDone : (k : ℕ) (t : Task) → steps_left k t ≡ 0 → IsDone t
steps_left-IsDone k (get_done v r) e = tt
steps_left-IsDone k (start_done flow r) e = tt
steps_left-IsDone k (stop_done flow) e = tt
steps_left-IsDone k (get_asked v) e = absurd (omega (arith, e))
steps_left-IsDone k (get_checked v) e = absurd (omega (arith, e))
steps_left-IsDone k (get_permitted v) e = absurd (omega (arith, e))
steps_left-IsDone k (get_located v path) e = absurd (omega (arith, e))
steps_left-IsDone k (start_asked flow) e = absurd (omega (arith, e))
steps_left-IsDone k (start_seeding flow quads) e = absurd (omega (arith, e))
steps_left-IsDone k (start_admitted flow) e = absurd (omega (arith, e))
steps_left-IsDone k (stop_asked flow) e = absurd (omega (arith, e))

-- The steps left at a place.
abbrev left_at : ℕ → ℕ → List Task → ℕ
left_at k n [] = 0
left_at k zero (t ∷ ts) = steps_left k t
left_at k (suc n) (t ∷ ts) = left_at k n ts

module _ (O : Oxigraph) (k : ℕ) where
  check-steps_left : (v : Visit) (w : World O) → steps_left k (check O v w) ≤ 3
  check-steps_left v w = elim (Option-cases (lookup v.token w.tokens)) [
    | inl p ↦ rw (p, check) (omega arith)
    | inr (entry, p) ↦ elim (Bool-cases (entry.dataset_id == v.dataset_id)) [
      | inl q ↦ rw (p, q, check) (omega arith)
      | inr q ↦ rw (p, q, check) (omega arith)
    ]
  ]

  permit-steps_left :
      (E : Engine) (v : Visit) (g : ConfigGraph O) → steps_left k (permit O E v g) ≤ 2
  permit-steps_left E v g = elim (Result-cases (policy_jsonld O v.dataset_id g)) [
    | inr (e, p) ↦ rw (p, permit) (omega arith)
    | inl (doc, p) ↦ elim (Result-cases (E.ingest_policy_value doc)) [
      | inr (e, q) ↦ rw (p, q, permit) (omega arith)
      | inl (policy, q) ↦
          elim (WireDecision-cases
            (E.evaluate_request (engine_request O E v.env.now policy v.dataset_id)).0) [
              | inr d ↦ rw (p, q, d, permit) (omega arith)
              | inl d ↦ rw (p, q, d, permit) (omega arith)
            ]
    ]
  ]

  locate-steps_left : (v : Visit) (g : ConfigGraph O) → steps_left k (locate O v g) ≤ 1
  locate-steps_left v g = elim (Result-cases (file_path O v.dataset_id g)) [
    | inr (e, p) ↦ rw (p, locate) (omega arith)
    | inl (path, p) ↦ rw (p, locate) (omega arith)
  ]

  seed-steps_left :
      (flow : DataFlow) (w : World O) (q : Quad) (rest : List Quad)
      → steps_left k (seed O flow q rest w).0 ≤ 2 + length rest
  seed-steps_left flow w q rest = elim (Result-cases (O.insert w.graph.store q)) [
    | inr (e, p) ↦ rw (p, seed) (omega arith)
    | inl (s, p) ↦ rw (p, seed) (omega arith)
  ]

module _ (O : Oxigraph) (h : FileOfferHandler) where
  look-steps_left :
      (flow : DataFlow) (w : World O)
      → steps_left (seeding_steps h) (look O h flow w).0 ≤ 1 + seeding_steps h
  look-steps_left flow w = elim (Result-cases (file_path O flow.dataset_id w.graph)) [
    | inl (path, p) ↦ rw (p, look) (omega arith)
    | inr (e, p) ↦ elim (Bool-cases h.tck_mode) [
      | inr q ↦ simp (look-refused O h flow w e p q, q) (omega arith)
      | inl q ↦ elim (Result-cases (offer_quads O w.graph.blanks (auto_offer O h flow))) [
        | inr (x, r) ↦ rw (p, q, r, look) (omega arith)
        | inl (made, r) ↦
            let count = length-offer_quads O w.graph.blanks (auto_offer O h flow) made r in
            rw (p, q, r, look) (omega (arith, count))
      ]
    ]
  ]

module _ (O : Oxigraph) (E : Engine) (uuid : ℕ → String) (h : FileOfferHandler) where
  advance-steps_left :
      (t : Task) (w : World O)
      → steps_left (seeding_steps h) (advance O E uuid h t w).0 ≤ steps_left (seeding_steps h) t - 1
  unfolding advance
  advance-steps_left (get_asked v) w = check-steps_left O (seeding_steps h) v w
  advance-steps_left (get_checked v) w = permit-steps_left O (seeding_steps h) E v w.graph
  advance-steps_left (get_permitted v) w = locate-steps_left O (seeding_steps h) v w.graph
  advance-steps_left (get_located v path) w = omega arith
  advance-steps_left (get_done v r) w = omega arith
  advance-steps_left (start_asked flow) w = let l = look-steps_left O h flow w in omega (arith, l)
  advance-steps_left (start_seeding flow []) w = omega arith
  advance-steps_left (start_seeding flow (q ∷ rest)) w =
      let s = seed-steps_left O (seeding_steps h) flow w q rest in omega (arith, s)
  advance-steps_left (start_admitted flow) w = omega arith
  advance-steps_left (start_done flow r) w = omega arith
  advance-steps_left (stop_asked flow) w = omega arith
  advance-steps_left (stop_done flow) w = omega arith

  left_at-turn :
      (i n : ℕ) (ts : List Task) (w : World O)
      → left_at (seeding_steps h) i (turn O E uuid h n ts w).0
        ≤ left_at (seeding_steps h) i ts - (if nat_eq n i then 1 else 0)
  unfolding turn
  left_at-turn i n [] w = omega arith
  left_at-turn zero zero (t ∷ ts) w = advance-steps_left t w
  left_at-turn zero (suc n) (t ∷ ts) w = ground (arith)
  left_at-turn (suc i) zero (t ∷ ts) w = ground (arith)
  left_at-turn (suc i) (suc n) (t ∷ ts) w = let rest = left_at-turn i n ts w in ground (arith, rest)

-- How often a schedule gives a turn to a place.
unfoldable pub turns_of : ℕ → List ℕ → ℕ
turns_of i [] = 0
turns_of i (n ∷ ns) = (if nat_eq n i then 1 else 0) + turns_of i ns

module _ (O : Oxigraph) (E : Engine) (uuid : ℕ → String) (h : FileOfferHandler) where
  left_at-interleave :
      (i : ℕ) (ns : List ℕ) (ts : List Task) (w : World O)
      → left_at (seeding_steps h) i (interleave O E uuid h ns ts w).0
        ≤ left_at (seeding_steps h) i ts - turns_of i ns
  unfolding interleave turns_of
  left_at-interleave i [] ts w = omega arith
  left_at-interleave i (n ∷ ns) ts w =
      let (us, w') = turn O E uuid h n ts w in
      let one = left_at-turn O E uuid h i n ts w in
      let rest = left_at-interleave i ns (turn O E uuid h n ts w).0 (turn O E uuid h n ts w).1 in
      omega (arith, one, rest)

fresh-steps_left : (k : ℕ) (t : Task) → IsFresh t → steps_left k t ≤ 4 + k
fresh-steps_left k (get_asked v) f = omega arith
fresh-steps_left k (start_asked flow) f = omega arith
fresh-steps_left k (stop_asked flow) f = omega arith
fresh-steps_left k (get_checked v) f = absurd f
fresh-steps_left k (get_permitted v) f = absurd f
fresh-steps_left k (get_located v path) f = absurd f
fresh-steps_left k (get_done v r) f = absurd f
fresh-steps_left k (start_seeding flow quads) f = absurd f
fresh-steps_left k (start_admitted flow) f = absurd f
fresh-steps_left k (start_done flow r) f = absurd f
fresh-steps_left k (stop_done flow) f = absurd f

left_at-fresh :
    (k n i : ℕ) (ts : List Task) → All IsFresh ts → (i < length ts → 4 + k ≤ n) → left_at k i ts ≤ n
left_at-fresh k n i [] f enough = omega arith
left_at-fresh k n zero (t ∷ ts) (f, fs) enough =
    let a = fresh-steps_left k t f in let b = enough (omega arith) in omega (arith, a, b)
left_at-fresh k n (suc i) (t ∷ ts) (f, fs) enough =
    left_at-fresh k n i ts fs (λ lt. enough (omega (arith, lt)))

left_at-IsDone : (k : ℕ) (ts : List Task) → ((i : ℕ) → left_at k i ts ≡ 0) → All IsDone ts
left_at-IsDone k [] none_left = tt
left_at-IsDone k (t ∷ ts) none_left =
    (steps_left-IsDone k t (none_left 0), left_at-IsDone k ts (λ i. none_left (suc i)))

module _ (O : Oxigraph) (E : Engine) (uuid : ℕ → String) (h : FileOfferHandler) where
  -- On any store and in either mode, a schedule that gives four turns to each of some fresh requests,
  -- starts and terminations, and in TCK mode also one for each quad of the default offer and one more,
  -- leaves all of them done, in whatever order they take turns.
  pub interleave-IsDone :
      (w : World O) (ts : List Task) (ns : List ℕ)
      → All IsFresh ts
      → ((i : ℕ) → i < length ts → 4 + seeding_steps h ≤ turns_of i ns)
      → All IsDone (interleave O E uuid h ns ts w).0
  interleave-IsDone w ts ns fresh enough =
      left_at-IsDone (seeding_steps h) (interleave O E uuid h ns ts w).0 λ i.
        let bound = left_at-interleave O E uuid h i ns ts w in
        let few = left_at-fresh (seeding_steps h) (turns_of i ns) i ts fresh (enough i) in
        omega (arith, bound, few)
