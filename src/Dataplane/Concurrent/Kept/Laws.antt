-- ===== src/Dataplane/Concurrent/Kept/Laws.antt =====
-- Requests for an offer of the graph, while starts in either mode insert other offers.
use ds_sql_dps_rs.Prelude.{String, ℕ, false, ◌≡◌, refl, List, [], ◌∷◌, ◌++◌, All, All-map, All-both}
use ds_sql_dps_rs.Oxigraph.{Oxigraph, IsInMemory}
use ds_sql_dps_rs.ConfigGraph.Offer.{FileOffer}
use ds_sql_dps_rs.ConfigGraph.Seed.Quads.{IsVocabulary, next_node}
use ds_sql_dps_rs.ConfigGraph.Ids.{has_hash}
use ds_sql_dps_rs.ConfigGraph.RoundTrip.{History, ReadsBack}
use ds_sql_dps_rs.ConfigGraph.RoundTrip.Holding.{Holding}
use ds_sql_dps_rs.ConfigGraph.RoundTrip.Laws.{History-Invariant}
use ds_sql_dps_rs.ConfigGraph.RoundTrip.Kept.{Kept, Kept-ReadsBack}
use ds_sql_dps_rs.Dataplane.Tokens.Laws.{Op}
use ds_sql_dps_rs.Dataplane.Handler.{World, FileOfferHandler}
use ds_sql_dps_rs.Dataplane.Public.{Engine}
use ds_sql_dps_rs.Dataplane.System.Good.{IsValidCall}
use ds_sql_dps_rs.Dataplane.Concurrent.{
  Task, get_asked, get_checked, get_permitted, get_located, get_done, start_asked, start_seeding,
  start_admitted, start_done, stop_asked, stop_done, turn, interleave,
}
use ds_sql_dps_rs.Dataplane.Concurrent.Explained.{IsFresh}
use ds_sql_dps_rs.Dataplane.Concurrent.Laws.{Asks}
use ds_sql_dps_rs.Dataplane.Concurrent.Moments.{op_at, Moment, watch, Justified}
use ds_sql_dps_rs.Dataplane.Concurrent.Moments.Laws.{interleave-fresh}
use ds_sql_dps_rs.Dataplane.Concurrent.Kept.{Careful, turn-Leaves}
use ds_sql_dps_rs.Dataplane.Concurrent.Kept.Answered.{Determined, IsAnswered, Determined-IsAnswered}
use ds_sql_dps_rs.Dataplane.Concurrent.Kept.Decided.{turn-Determined}
use ds_sql_dps_rs.Dataplane.Concurrent.Kept.Served.{IsServed, ReadsAt, Justified-IsServed}

module _ (O : Oxigraph) (M : IsInMemory O) (V : IsVocabulary O) (E : Engine) (uuid : ℕ → String)
    (h : FileOfferHandler) (offer : FileOffer) where
  module _ (floor : ℕ) (plain : has_hash offer.dataset_id ≡ false) where
    -- The offer reads back at every moment.
    watch-ReadsAt :
        (ns : List ℕ) (ts : List Task) (w : World O) (ops : List Op) (past : List (Moment O))
        → Kept O M V floor offer w.graph
        → All (Careful O M V floor offer plain) ts
        → All (ReadsAt O M V E uuid h offer) past
        → All (ReadsAt O M V E uuid h offer) (watch O E uuid h ns ts w ops past).0
          × ReadsBack O M V (interleave O E uuid h ns ts w).1.graph offer
    unfolding interleave watch
    watch-ReadsAt [] ts w ops past kept c reads =
        (reads, Kept-ReadsBack O M V floor offer w.graph kept)
    watch-ReadsAt (n ∷ ns) ts w ops past kept c reads =
        let m : Moment O = record { world = w; ops = ops } in
        let next = turn O E uuid h n ts w in
        let left = turn-Leaves O M V floor offer plain E uuid h n ts w kept c in
        watch-ReadsAt ns next.0 next.1 (op_at n ts ++ ops) (m ∷ past) left.0 left.1
          (Kept-ReadsBack O M V floor offer w.graph kept, reads)

    -- Every request is decided or for another dataset.
    watch-Determined :
        (ns : List ℕ) (ts : List Task) (w : World O) (ops : List Op) (past : List (Moment O))
        → Kept O M V floor offer w.graph
        → All (Careful O M V floor offer plain) ts
        → All (Determined O M V E offer past) ts
        → All
            (Determined O M V E offer (watch O E uuid h ns ts w ops past).0)
            (interleave O E uuid h ns ts w).0
    unfolding interleave watch
    watch-Determined [] ts w ops past kept c d = d
    watch-Determined (n ∷ ns) ts w ops past kept c d =
        let m : Moment O = record { world = w; ops = ops } in
        let next = turn O E uuid h n ts w in
        let left = turn-Leaves O M V floor offer plain E uuid h n ts w kept c in
        let reads = Kept-ReadsBack O M V floor offer w.graph kept in
        watch-Determined ns next.0 next.1 (op_at n ts ++ ops) (m ∷ past) left.0 left.1
          (turn-Determined O M V E offer m past reads uuid h n ts d)

    fresh-Determined : (t : Task) → IsFresh t → Determined O M V E offer [] t
    fresh-Determined (get_asked v) f = tt
    fresh-Determined (start_asked flow) f = tt
    fresh-Determined (stop_asked flow) f = tt
    fresh-Determined (get_checked v) f = absurd f
    fresh-Determined (get_permitted v) f = absurd f
    fresh-Determined (get_located v path) f = absurd f
    fresh-Determined (get_done v r) f = absurd f
    fresh-Determined (start_seeding flow quads) f = absurd f
    fresh-Determined (start_admitted flow) f = tt
    fresh-Determined (start_done flow r) f = tt
    fresh-Determined (stop_done flow) f = tt

    fresh-Careful :
        (t : Task) → IsFresh t → Asks (IsValidCall O) t → Careful O M V floor offer plain t
    fresh-Careful (get_asked v) f q = tt
    fresh-Careful (start_asked flow) f q = q
    fresh-Careful (stop_asked flow) f q = tt
    fresh-Careful (get_checked v) f q = tt
    fresh-Careful (get_permitted v) f q = tt
    fresh-Careful (get_located v path) f q = tt
    fresh-Careful (get_done v r) f q = tt
    fresh-Careful (start_seeding flow quads) f q = absurd f
    fresh-Careful (start_admitted flow) f q = tt
    fresh-Careful (start_done flow r) f q = tt
    fresh-Careful (stop_done flow) f q = tt

    fresh-AllCareful :
        (ts : List Task)
        → All IsFresh ts
        → All (Asks (IsValidCall O)) ts
        → All (Careful O M V floor offer plain) ts
    fresh-AllCareful ts fresh asks =
        All-map (λ t. IsFresh t × Asks (IsValidCall O) t) (Careful O M V floor offer plain)
          (λ t p. fresh-Careful t p.0 p.1) ts
          (All-both IsFresh (Asks (IsValidCall O)) ts fresh asks)

  interleave-Kept :
      (ns : List ℕ) (ts : List Task) (w : World O) (ops : List Op) (floor : ℕ)
      → Kept O M V floor offer w.graph
      → has_hash offer.dataset_id ≡ false
      → All IsFresh ts
      → All (Asks (IsValidCall O)) ts
      → All (λ m. ReadsBack O M V m.world.graph offer) (watch O E uuid h ns ts w ops []).0
        × ReadsBack O M V (interleave O E uuid h ns ts w).1.graph offer
        × All
            (IsServed O M V E uuid h offer (watch O E uuid h ns ts w ops []).0)
            (interleave O E uuid h ns ts w).0
  interleave-Kept ns ts w ops floor kept plain fresh asks =
      let (reads, final) =
        watch-ReadsAt floor plain ns ts w ops [] kept (fresh-AllCareful floor plain ts fresh asks)
          tt in
      let past = (watch O E uuid h ns ts w ops []).0 in
      (
        reads,
        final,
        All-map (Justified O E uuid h past) (IsServed O M V E uuid h offer past)
            (λ t j. Justified-IsServed O M V E uuid h offer past t reads j)
            (interleave O E uuid h ns ts w).0 (interleave-fresh O E uuid h ns ts w ops fresh),
      )

module _ (O : Oxigraph) (M : IsInMemory O) (V : IsVocabulary O) (E : Engine) (uuid : ℕ → String)
    (h : FileOfferHandler) where
  -- What holds of each offer that the graph keeps holds of each offer of the history.
  History-Kept :
      {offers : List FileOffer} {P : FileOffer → Type 0} (w : World O)
      → History O M V w.graph offers
      → All (λ o. has_hash o.dataset_id ≡ false) offers
      → ((o : FileOffer) (floor : ℕ)
          → Kept O M V floor o w.graph
          → has_hash o.dataset_id ≡ false
          → P o)
      → All P offers
  History-Kept {offers} {P} w history plain f =
      let inv = History-Invariant O M V history in
      All-map (λ o. Holding O M V w.graph.blanks inv.g o × (has_hash o.dataset_id ≡ false)) P
        (λ o p.
          f o (next_node O p.0.k o.permissions)
            (record { g = inv.g; holds = inv.stores.holds; holding = p.0; floor_at = refl }) p.1)
        offers
        (All-both (Holding O M V w.graph.blanks inv.g) (λ o. has_hash o.dataset_id ≡ false) offers
          inv.holding plain)

  -- On an in-memory store that takes the vocabulary's IRIs, in either mode, from a graph that is a
  -- history of seeding offers under ids without a `#`, with fresh requests, terminations, and starts
  -- for valid ids without a `#` that run at the same time, step by step in any order, the insertions
  -- of a seeding one by one included: each offer of the history reads back at every moment. A request
  -- for its dataset that is answered with 200 had a token that was good for it at one of the moments,
  -- the engine allowed the offer's policy document, and the answer is the content of the offer's
  -- file, under its media type.
  pub interleave-IsServed :
      {offers : List FileOffer} (w : World O)
      → History O M V w.graph offers
      → All (λ o. has_hash o.dataset_id ≡ false) offers
      → (ns : List ℕ) (ts : List Task) (ops : List Op) → All IsFresh ts
      → All (Asks (IsValidCall O)) ts
      → All
          (λ o.
            All (λ m. ReadsBack O M V m.world.graph o) (watch O E uuid h ns ts w ops []).0
            × ReadsBack O M V (interleave O E uuid h ns ts w).1.graph o
            × All
                (IsServed O M V E uuid h o (watch O E uuid h ns ts w ops []).0)
                (interleave O E uuid h ns ts w).0)
          offers
  interleave-IsServed {offers} w history plain ns ts ops fresh asks =
      History-Kept w history plain (λ o floor kept plain_o.
        interleave-Kept O M V E uuid h o ns ts w ops floor kept plain_o fresh asks)

  -- On an in-memory store that takes the vocabulary's IRIs, in either mode, from a graph that is a
  -- history of seeding offers under ids without a `#`, with fresh requests, terminations, and starts
  -- for valid ids without a `#` that run at the same time, step by step in any order: each request
  -- for the dataset of an offer of the history that is done was answered, without a graph, by what its
  -- token was worth at one of the moments, and, if it was good, by the offer's policy document, file
  -- and media type.
  pub interleave-IsAnswered :
      {offers : List FileOffer} (w : World O)
      → History O M V w.graph offers
      → All (λ o. has_hash o.dataset_id ≡ false) offers
      → (ns : List ℕ) (ts : List Task) (ops : List Op) → All IsFresh ts
      → All (Asks (IsValidCall O)) ts
      → All
          (λ o.
            All
              (IsAnswered O M V E o (watch O E uuid h ns ts w ops []).0)
              (interleave O E uuid h ns ts w).0)
          offers
  interleave-IsAnswered {offers} w history plain ns ts ops fresh asks =
      let past = (watch O E uuid h ns ts w ops []).0 in
      History-Kept w history plain (λ o floor kept plain_o.
        All-map (Determined O M V E o past) (IsAnswered O M V E o past)
          (Determined-IsAnswered O M V E o past) (interleave O E uuid h ns ts w).0
          (watch-Determined O M V E uuid h o floor plain_o ns ts w ops [] kept
            (fresh-AllCareful O M V E uuid h o floor plain_o ts fresh asks)
            (All-map IsFresh (Determined O M V E o [])
              (fresh-Determined O M V E uuid h o floor plain_o) ts fresh)))
