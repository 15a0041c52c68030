-- ===== src/Dataplane/Concurrent/Answers.antt =====
-- The requests that a data plane answers while its flows start and terminate.
use mathlib.Core.List.{append_assoc}
use ds_sql_dps_rs.Prelude.{
  String, ℕ, false, ◌≡◌, refl, ap, sym, ◌∙◌, subst, List, [], ◌∷◌, ◌++◌, All, All-append, ok,
}
use ds_sql_dps_rs.Oxigraph.{Oxigraph, IsInMemory}
use ds_sql_dps_rs.ConfigGraph.Seed.Quads.{IsVocabulary, IsDatasetId}
use ds_sql_dps_rs.ConfigGraph.Ids.{has_hash}
use ds_sql_dps_rs.Dataplane.Tokens.{lookup}
use ds_sql_dps_rs.Dataplane.Tokens.Laws.{run}
use ds_sql_dps_rs.Dataplane.Config.{Config}
use ds_sql_dps_rs.Dataplane.Handler.{World, FileOfferHandler}
use ds_sql_dps_rs.Dataplane.Public.{Engine, Response, get_file}
use ds_sql_dps_rs.Dataplane.Build.{Startup, App, build}
use ds_sql_dps_rs.Dataplane.System.{Call, execute, token_ops, request_answer}
use ds_sql_dps_rs.Dataplane.System.Good.{IsValidCall}
use ds_sql_dps_rs.Dataplane.System.Laws.{get_file-Good, Built-invariant}
use ds_sql_dps_rs.Dataplane.Concurrent.{
  Visit, Task, get_asked, get_checked, get_permitted, get_located, get_done, start_asked,
  start_seeding, start_admitted, start_done, stop_asked, stop_done, interleave,
}
use ds_sql_dps_rs.Dataplane.Concurrent.Explained.{IsFresh, Served, Explained}
use ds_sql_dps_rs.Dataplane.Concurrent.Since.{AllSince, AllSince-map}
use ds_sql_dps_rs.Dataplane.Concurrent.Laws.{
  Asks, fresh-IsSound, IsSound-Linear, interleave-IsSound,
}

execute-append :
    (O : Oxigraph) (uuid : ℕ → String) (h : FileOfferHandler) (w : World O) (later cs : List Call)
    → execute O uuid h w (later ++ cs) ≡ execute O uuid h (execute O uuid h w cs) later
unfolding execute
execute-append O uuid h w [] cs = refl
execute-append O uuid h w (c ∷ later) cs =
    ap (ds_sql_dps_rs.Dataplane.System.apply O uuid h c) (execute-append O uuid h w later cs)

All-drop : (P : Call → Type 0) (left right : List Call) → All P (left ++ right) → All P right
All-drop P [] right a = a
All-drop P (c ∷ left) right (at, a) = All-drop P left right a

module _ (O : Oxigraph) (E : Engine) (uuid : ℕ → String) (h : FileOfferHandler) where
  -- After the calls `cs`, and before all of `ds` were made, a request is answered as the calls so far
  -- say what its token is worth.
  pub record AnsweredAfter (cs ds : List Call) (v : Visit) (r : Response) : Type 0 where
    pub more : List Call
    pub after : List Call
    pub split : ds ≡ after ++ more
    pub answer :
        r
        ≡ request_answer O E v.env h
            (lookup v.token (run uuid (token_ops h (more ++ cs))))
            v.dataset_id

  abbrev pub Answered : List Call → List Call → Task → Type 0
  Answered cs ds (get_done v r) = AnsweredAfter cs ds v r
  Answered cs ds (get_asked v) = Unit
  Answered cs ds (get_checked v) = Unit
  Answered cs ds (get_permitted v) = Unit
  Answered cs ds (get_located v path) = Unit
  Answered cs ds (start_asked flow) = Unit
  Answered cs ds (start_seeding flow quads) = Unit
  Answered cs ds (start_admitted flow) = Unit
  Answered cs ds (start_done flow r) = Unit
  Answered cs ds (stop_asked flow) = Unit
  Answered cs ds (stop_done flow) = Unit

module _ (O : Oxigraph) (M : IsInMemory O) (V : IsVocabulary O) (s : Startup) (c : Config)
    (app : App O) (started : build O s c ≡ ok app) (D : IsDatasetId O c.dataset_id)
    (plain : has_hash c.dataset_id ≡ false) (uuid : ℕ → String) (E : Engine) where
  Served-AnsweredAfter :
      (cs ds : List Call) (v : Visit) (r : Response)
      → All (IsValidCall O) (ds ++ cs)
      → Served O E uuid app.handler (execute O uuid app.handler app.world cs) ds v r
      → AnsweredAfter O E uuid app.handler cs ds v r
  Served-AnsweredAfter cs ds v r valid served =
      let calls = served.before ++ cs in
      let w = execute O uuid app.handler app.world calls in
      let valid' : All (IsValidCall O) calls = All-drop (IsValidCall O) served.after calls (
        subst (All (IsValidCall O))
          (ap (λ x. x ++ cs) served.split ∙ append_assoc served.after served.before cs) valid) in
      let (offer, mode, g) = Built-invariant O M V s c app started D plain uuid calls valid' in
      record {
        more = served.before;
        after = served.after;
        split = served.split;
        answer =
            sym served.answer
            ∙ ap (λ x. get_file O E v.env x v.dataset_id v.token)
                (sym (execute-append O uuid app.handler app.world served.before cs))
            ∙ get_file-Good O M V uuid app.handler E v.env w calls v.dataset_id v.token g
            ∙ ap (λ t. request_answer O E v.env app.handler (lookup v.token t) v.dataset_id)
                g.tokens;
      }

  Explained-Answered :
      (cs ds : List Call) (t : Task)
      → All (IsValidCall O) (ds ++ cs)
      → Explained O E uuid app.handler (execute O uuid app.handler app.world cs) ds t
      → Answered O E uuid app.handler cs ds t
  Explained-Answered cs ds (get_done v r) valid e = Served-AnsweredAfter cs ds v r valid e
  Explained-Answered cs ds (get_asked v) valid e = tt
  Explained-Answered cs ds (get_checked v) valid e = tt
  Explained-Answered cs ds (get_permitted v) valid e = tt
  Explained-Answered cs ds (get_located v path) valid e = tt
  Explained-Answered cs ds (start_asked flow) valid e = tt
  Explained-Answered cs ds (start_seeding flow quads) valid e = tt
  Explained-Answered cs ds (start_admitted flow) valid e = tt
  Explained-Answered cs ds (start_done flow r) valid e = tt
  Explained-Answered cs ds (stop_asked flow) valid e = tt
  Explained-Answered cs ds (stop_done flow) valid e = tt

  -- On an in-memory store that takes the vocabulary's IRIs, after `build` with a valid dataset
  -- id without a `#` and a handler outside TCK mode, when requests, terminations, and starts for such ids run at the
  -- same time, step by step in any order: at any moment some calls `cs` explain the tokens and the
  -- graph, and later `ds` and `cs` do; and each request that has begun in between and is done has
  -- been answered, without a graph, as `cs` and an earlier part of `ds` say what its token is worth.
  pub interleave-Answered :
      app.handler.tck_mode ≡ false
      → (ts : List Task) → All IsFresh ts
      → All (Asks (IsValidCall O)) ts
      → (earlier later : List ℕ)
      → (cs : List Call) × (ds : List Call) × ((interleave O E uuid app.handler earlier ts
            app.world).1
          ≡ execute O uuid app.handler app.world cs)
        × ((interleave O E uuid app.handler later
              (interleave O E uuid app.handler earlier ts app.world).0
              (interleave O E uuid app.handler earlier ts app.world).1).1
            ≡ execute O uuid app.handler app.world (ds ++ cs))
        × AllSince
            (Answered O E uuid app.handler cs ds)
            (interleave O E uuid app.handler earlier ts app.world).0
            (interleave O E uuid app.handler later
              (interleave O E uuid app.handler earlier ts app.world).0
              (interleave O E uuid app.handler earlier ts app.world).1).0
  interleave-Answered normal ts fresh asks earlier later =
      let h = app.handler in
      let Q = IsValidCall O in
      let mid = interleave O E uuid h earlier ts app.world in
      let final = interleave O E uuid h later mid.0 mid.1 in
      let l =
        IsSound-Linear O E uuid h normal Q app.world ts earlier
          (fresh-IsSound O h app.world.graph Q ts fresh asks) in
      let m =
        IsSound-Linear O E uuid h normal Q mid.1 mid.0 later
          (interleave-IsSound O E uuid h normal Q app.world ts earlier l) in
      let valid = All-append Q m.calls l.calls m.allowed l.allowed in
      (
        l.calls,
        m.calls,
        l.world,
        m.world
            ∙ ap (λ w. execute O uuid h w m.calls) l.world
            ∙ sym (execute-append O uuid h app.world m.calls l.calls),
        AllSince-map (Explained O E uuid h mid.1 m.calls) (Answered O E uuid h l.calls m.calls)
            mid.0 final.0
            (λ t e.
              Explained-Answered l.calls m.calls t valid
                (subst (λ w. Explained O E uuid h w m.calls t) l.world e))
            m.explained,
      )
