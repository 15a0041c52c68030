-- ===== src/Dataplane/Concurrent/Laws.antt =====
-- Tasks that run at the same time, outside TCK mode, do what calls and requests one after the other do.
use ds_sql_dps_rs.Prelude.{
  String, ℕ, zero, suc, false, ◌≡◌, refl, ap, sym, ◌∙◌, subst, List, [], ◌∷◌, ◌++◌, All, All-map,
  All-both, All-append,
}
use ds_sql_dps_rs.Oxigraph.{Oxigraph}
use ds_sql_dps_rs.ConfigGraph.Store.{ConfigGraph}
use ds_sql_dps_rs.Dataplane.Handler.{World, FileOfferHandler}
use ds_sql_dps_rs.Dataplane.Public.{Engine}
use ds_sql_dps_rs.Dataplane.System.{Call, starts, terminates, execute}
use ds_sql_dps_rs.Dataplane.Concurrent.{
  Task, get_asked, get_checked, get_permitted, get_located, get_done, start_asked, start_seeding,
  start_admitted, start_done, stop_asked, stop_done, turn, interleave,
}
use ds_sql_dps_rs.Dataplane.Concurrent.Steps.{execute-graph}
use ds_sql_dps_rs.Dataplane.Concurrent.Explained.{IsFresh, IsSound, Explained, Explained-append}
use ds_sql_dps_rs.Dataplane.Concurrent.Since.{Since, AllSince, Since-map, AllSince-map}
use ds_sql_dps_rs.Dataplane.Concurrent.Moves.{advance-Moved}

module _ (O : Oxigraph) (E : Engine) (uuid : ℕ → String) (h : FileOfferHandler) (base : World O)
    (Q : Call → Type 0) where
  -- The tasks have done what some calls do, one after the other, and a task that was fresh has the
  -- result that it has between two of these calls, or of one of them.
  pub record Linear (ts : List Task) (next : List Task × World O) : Type 0 where
    pub calls : List Call
    pub allowed : All Q calls
    pub world : next.1 ≡ execute O uuid h base calls
    pub sound : All (IsSound O h base.graph Q) next.0
    pub explained : AllSince (Explained O E uuid h base calls) ts next.0

  same-Since : (t : Task) → Since (Explained O E uuid h base []) t t
  same-Since (get_asked v) = tt
  same-Since (start_asked flow) = tt
  same-Since (stop_asked flow) = tt
  same-Since (get_checked v) = tt
  same-Since (get_permitted v) = tt
  same-Since (get_located v path) = tt
  same-Since (get_done v r) = tt
  same-Since (start_seeding flow quads) = tt
  same-Since (start_admitted flow) = tt
  same-Since (start_done flow r) = tt
  same-Since (stop_done flow) = tt

  same-AllSince : (ts : List Task) → AllSince (Explained O E uuid h base []) ts ts
  same-AllSince [] = tt
  same-AllSince (t ∷ ts) = (same-Since t, same-AllSince ts)

  later_too :
      (cs new : List Call) (ts us : List Task)
      → AllSince (Explained O E uuid h base cs) ts us
      → AllSince (Explained O E uuid h base (new ++ cs)) ts us
  later_too cs new ts us e =
      AllSince-map (Explained O E uuid h base cs) (Explained O E uuid h base (new ++ cs)) ts us
        (Explained-append O E uuid h base cs new) e

  module _ (normal : h.tck_mode ≡ false) where
    -- A turn makes some more calls.
    record Turned (cs : List Call) (ts : List Task) (next : List Task × World O) : Type 0 where
      new : List Call
      allowed : All Q new
      world : next.1 ≡ execute O uuid h base (new ++ cs)
      sound : All (IsSound O h base.graph Q) next.0
      explained : AllSince (Explained O E uuid h base (new ++ cs)) ts next.0

    turn-Turned :
        (n : ℕ) (cs : List Call) (ts us : List Task)
        → All (IsSound O h base.graph Q) us
        → AllSince (Explained O E uuid h base cs) ts us
        → Turned cs ts (turn O E uuid h n us (execute O uuid h base cs))
    unfolding turn
    turn-Turned n cs [] [] sound e = record {
      new = [];
      allowed = tt;
      world = refl;
      sound = tt;
      explained = tt;
    }
    turn-Turned n cs [] (u ∷ us) sound e = absurd e
    turn-Turned n cs (t ∷ ts) [] sound e = absurd e
    turn-Turned zero cs (t ∷ ts) (u ∷ us) (s, sound) (e, rest) =
        let m = advance-Moved O E uuid h normal base Q u cs s in
        record {
          new = m.new;
          allowed = m.allowed;
          world = m.world;
          sound = (m.sound, sound);
          explained = (
            Since-map (Explained O E uuid h base cs) (Explained O E uuid h base (m.new ++ cs)) t u _
                m.explained e,
            later_too cs m.new ts us rest,
          );
        }
    turn-Turned (suc n) cs (t ∷ ts) (u ∷ us) (s, sound) (e, rest) =
        let m = turn-Turned n cs ts us sound rest in
        record {
          new = m.new;
          allowed = m.allowed;
          world = m.world;
          sound = (s, m.sound);
          explained = (
            Since-map (Explained O E uuid h base cs) (Explained O E uuid h base (m.new ++ cs)) t u u
                (Explained-append O E uuid h base cs m.new u) e,
            m.explained,
          );
        }

    turns-Linear :
        (ns : List ℕ) (cs : List Call) (ts us : List Task)
        → All Q cs
        → All (IsSound O h base.graph Q) us
        → AllSince (Explained O E uuid h base cs) ts us
        → Linear ts (interleave O E uuid h ns us (execute O uuid h base cs))
    unfolding interleave
    turns-Linear [] cs ts us q sound e = record {
      calls = cs;
      allowed = q;
      world = refl;
      sound = sound;
      explained = e;
    }
    turns-Linear (n ∷ ns) cs ts us q sound e =
        let m = turn-Turned n cs ts us sound e in
        let next = turn O E uuid h n us (execute O uuid h base cs) in
        subst (λ w. Linear ts (interleave O E uuid h ns next.0 w)) (sym m.world)
          (turns-Linear ns (m.new ++ cs) ts next.0 (All-append Q m.new cs m.allowed q) m.sound
            m.explained)

-- The call that a fresh task is about meets a condition.
abbrev pub Asks : (Call → Type 0) → Task → Type 0
Asks Q (start_asked flow) = Q (starts flow)
Asks Q (stop_asked flow) = Q (terminates flow)
Asks Q (get_asked v) = Unit
Asks Q (get_checked v) = Unit
Asks Q (get_permitted v) = Unit
Asks Q (get_located v path) = Unit
Asks Q (get_done v r) = Unit
Asks Q (start_seeding flow quads) = Unit
Asks Q (start_admitted flow) = Unit
Asks Q (start_done flow r) = Unit
Asks Q (stop_done flow) = Unit

pub fresh-IsSound :
    (O : Oxigraph) (h : FileOfferHandler) (g : ConfigGraph O) (Q : Call → Type 0) (ts : List Task)
    → All IsFresh ts
    → All (Asks Q) ts
    → All (IsSound O h g Q) ts
fresh-IsSound O h g Q ts fresh asks =
    All-map (λ t. IsFresh t × Asks Q t) (IsSound O h g Q) (λ t p. one t p.0 p.1) ts
      (All-both IsFresh (Asks Q) ts fresh asks)
  where
    one : (t : Task) → IsFresh t → Asks Q t → IsSound O h g Q t
    one (get_asked v) f q = tt
    one (start_asked flow) f q = q
    one (stop_asked flow) f q = q
    one (get_checked v) f q = tt
    one (get_permitted v) f q = tt
    one (get_located v path) f q = tt
    one (get_done v r) f q = tt
    one (start_seeding flow quads) f q = absurd f
    one (start_admitted flow) f q = absurd f
    one (start_done flow r) f q = tt
    one (stop_done flow) f q = tt

module _ (O : Oxigraph) (E : Engine) (uuid : ℕ → String) (h : FileOfferHandler)
    (normal : h.tck_mode ≡ false) (Q : Call → Type 0) where
  pub IsSound-Linear :
      (w : World O) (ts : List Task) (ns : List ℕ)
      → All (IsSound O h w.graph Q) ts
      → Linear O E uuid h w Q ts (interleave O E uuid h ns ts w)
  unfolding execute
  IsSound-Linear w ts ns sound =
      turns-Linear O E uuid h w Q normal ns [] ts ts tt sound (same-AllSince O E uuid h w Q ts)

  -- What the tasks have found out holds at any moment.
  pub interleave-IsSound :
      (w : World O) (ts : List Task) (earlier : List ℕ)
      → Linear O E uuid h w Q ts (interleave O E uuid h earlier ts w)
      → All
          (IsSound O h (interleave O E uuid h earlier ts w).1.graph Q)
          (interleave O E uuid h earlier ts w).0
  interleave-IsSound w ts earlier l =
      let mid = interleave O E uuid h earlier ts w in
      let same : mid.1.graph ≡ w.graph =
        ap (λ x. x.graph) l.world ∙ execute-graph O uuid h normal w l.calls in
      subst (λ g. All (IsSound O h g Q) mid.0) (sym same) l.sound

  -- Outside TCK mode, when requests, starts and terminations run at the same time, step by step in
  -- any order: from any moment on, they do to the tokens and the graph what some calls do one after
  -- the other, each with the conditions that the tasks meet; and each of them that has begun after
  -- that moment and is done has the answer that the whole operation gives between two of those
  -- calls, or as one of them.
  pub interleave-Linear :
      (w : World O) (ts : List Task)
      → All IsFresh ts
      → All (Asks Q) ts
      → (earlier later : List ℕ)
      → Linear O E uuid h
          (interleave O E uuid h earlier ts w).1
          Q
          (interleave O E uuid h earlier ts w).0
          (interleave O E uuid h later
            (interleave O E uuid h earlier ts w).0
            (interleave O E uuid h earlier ts w).1)
  interleave-Linear w ts fresh asks earlier later =
      let mid = interleave O E uuid h earlier ts w in
      IsSound-Linear mid.1 mid.0 later (
        interleave-IsSound w ts earlier
          (IsSound-Linear w ts earlier (fresh-IsSound O h w.graph Q ts fresh asks)))
