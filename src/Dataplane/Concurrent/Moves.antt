-- ===== src/Dataplane/Concurrent/Moves.antt =====
-- One step of a task, outside TCK mode, is no call or one call.
use ds_sql_dps_rs.Prelude.{
  String, ℕ, false, ◌≡◌, refl, ap, sym, ◌∙◌, subst, List, [], ◌∷◌, All, ◌++◌, ok, err, Result-cases,
  inl, inr,
}
use ds_sql_dps_rs.Oxigraph.{Oxigraph}
use ds_sql_dps_rs.ConfigGraph.Store.{ConfigGraph, ConfigGraphError, file_path}
use ds_sql_dps_rs.Dataplane.Handler.{World, DataFlow, FileOfferHandler, admit, on_terminate}
use ds_sql_dps_rs.Dataplane.Handler.Admission.{
  unknown_dataset, admit-known, admit-refused, on_start-admitted, on_start-refused,
}
use ds_sql_dps_rs.Dataplane.Public.{Engine}
use ds_sql_dps_rs.Dataplane.System.{Call, starts, terminates, apply, execute}
use ds_sql_dps_rs.Dataplane.Concurrent.{
  Visit, Task, get_asked, get_checked, get_permitted, get_located, get_done, start_asked,
  start_seeding, start_admitted, start_done, stop_asked, stop_done, check, permit, locate, deliver,
  look, finish, advance,
}
use ds_sql_dps_rs.Dataplane.Concurrent.Steps.{
  remaining, remaining-check, remaining-permit, remaining-locate, execute-graph,
}
use ds_sql_dps_rs.Dataplane.Concurrent.Explained.{
  Continues, check-Continues, permit-Continues, locate-Continues, IsSound, Continues-IsSound,
  Served, Explained, Continues-Explained,
}

pub look-refused :
    (O : Oxigraph) (h : FileOfferHandler) (flow : DataFlow) (w : World O) (e : ConfigGraphError)
    → file_path O flow.dataset_id w.graph ≡ err e
    → h.tck_mode ≡ false
    → look O h flow w ≡ (start_done flow (err (unknown_dataset flow e)), w)
look-refused O h flow w e missing normal = rw (look, missing, normal)

module _ (O : Oxigraph) (E : Engine) (uuid : ℕ → String) (h : FileOfferHandler)
    (normal : h.tck_mode ≡ false) (base : World O) (Q : Call → Type 0) where
  abbrev after_calls : List Call → World O
  after_calls cs = execute O uuid h base cs

  -- The step after these calls makes some more, and keeps what is known of the task.
  pub record Moved (cs : List Call) (t : Task) (next : Task × World O) : Type 0 where
    pub new : List Call
    pub allowed : All Q new
    pub world : next.1 ≡ execute O uuid h base (new ++ cs)
    pub sound : IsSound O h base.graph Q next.0
    pub explained : Explained O E uuid h base cs t → Explained O E uuid h base (new ++ cs) next.0

  same_graph : (cs : List Call) → (after_calls cs).graph ≡ base.graph
  same_graph cs = execute-graph O uuid h normal base cs

  -- A step of a request that has begun.
  Continues-Moved :
      (cs : List Call) (v : Visit) (t t' : Task)
      → Continues v t'
      → (Explained O E uuid h base cs t → Served O E uuid h base cs v (remaining O E base.graph t'))
      → Moved cs t (t', after_calls cs)
  Continues-Moved cs v t t' c served = record {
    new = [];
    allowed = tt;
    world = refl;
    sound = Continues-IsSound O h base.graph Q c;
    explained = λ x. Continues-Explained O E uuid h base c (served x);
  }

  -- Such a step that reads the graph.
  reads-Moved :
      (cs : List Call) (v : Visit) (t : Task) (f : ConfigGraph O → Task)
      → ((g : ConfigGraph O) → Continues v (f g))
      → (Explained O E uuid h base cs t
          → Served O E uuid h base cs v (remaining O E base.graph (f base.graph)))
      → Moved cs t (f (after_calls cs).graph, after_calls cs)
  reads-Moved cs v t f c served =
      Continues-Moved cs v t (f (after_calls cs).graph) (c (after_calls cs).graph) λ x.
        subst (λ g. Served O E uuid h base cs v (remaining O E base.graph (f g)))
          (sym (same_graph cs)) (served x)

  check-Moved :
      (cs : List Call) (v : Visit)
      → Moved cs (get_asked v) (check O v (after_calls cs), after_calls cs)
  check-Moved cs v =
      Continues-Moved cs v (get_asked v) (check O v (after_calls cs))
        (check-Continues O v (after_calls cs))
        λ x. record {
          before = cs;
          after = [];
          split = refl;
          answer =
              remaining-check O E v (after_calls cs)
              ∙ ap (λ g. remaining O E g (check O v (after_calls cs))) (same_graph cs);
        }

  look-Moved :
      (cs : List Call) (flow : DataFlow)
      → Q (starts flow)
      → Moved cs (start_asked flow) (look O h flow (after_calls cs))
  look-Moved cs flow q = elim (Result-cases (file_path O flow.dataset_id (after_calls cs).graph)) [
    | inl (path, p) ↦
        let admitted : look O h flow (after_calls cs) ≡ (start_admitted flow, after_calls cs) =
          rw (look, p) in
        subst (Moved cs (start_asked flow)) (sym admitted) (record {
          new = [];
          allowed = tt;
          world = refl;
          sound = (
            subst (λ g. admit O h flow g ≡ (ok tt, g)) (same_graph cs)
                (admit-known O h flow (after_calls cs).graph path p),
            q,
          );
          explained = λ x. tt;
        })
    | inr (e, p) ↦
        let refused : look O h flow (after_calls cs)
            ≡ (start_done flow (err (unknown_dataset flow e)), after_calls cs) =
          look-refused O h flow (after_calls cs) e p normal in
        let call =
          on_start-refused O h flow uuid (after_calls cs) (unknown_dataset flow e)
            (admit-refused O h flow (after_calls cs).graph e p normal) in
        subst (Moved cs (start_asked flow)) (sym refused) (record {
          new = starts flow ∷ [];
          allowed = (q, tt);
          world = unfold execute apply in ap (λ r. r.1) (sym call);
          sound = tt;
          explained =
              λ x. (record { before = cs; after = []; split = refl }, ap (λ r. r.0) (sym call));
        })
  ]

  finish-Moved :
      (cs : List Call) (flow : DataFlow)
      → admit O h flow base.graph ≡ (ok tt, base.graph)
      → Q (starts flow)
      → Moved cs (start_admitted flow) (finish O h uuid flow (after_calls cs))
  unfolding ds_sql_dps_rs.Dataplane.Tokens.issue
  finish-Moved cs flow sound q =
      let w = after_calls cs in
      let call =
        on_start-admitted O h flow uuid w w.graph
          (subst (λ g. admit O h flow g ≡ (ok tt, g)) (sym (same_graph cs)) sound) in
      record {
        new = starts flow ∷ [];
        allowed = (q, tt);
        world = unfold execute apply in ap (λ r. r.1) (sym call);
        sound = tt;
        explained =
            λ x. (record { before = cs; after = []; split = refl }, ap (λ r. r.0) (sym call));
      }

  pub advance-Moved :
      (t : Task) (cs : List Call)
      → IsSound O h base.graph Q t
      → Moved cs t (advance O E uuid h t (after_calls cs))
  unfolding advance
  advance-Moved (get_asked v) cs sound = check-Moved cs v
  advance-Moved (get_checked v) cs sound =
      reads-Moved cs v (get_checked v) (permit O E v) (permit-Continues O E v) (λ s. record {
        before = s.before;
        after = s.after;
        split = s.split;
        answer = s.answer ∙ remaining-permit O E v base.graph;
      })
  advance-Moved (get_permitted v) cs sound =
      reads-Moved cs v (get_permitted v) (locate O v) (locate-Continues O v) (λ s. record {
        before = s.before;
        after = s.after;
        split = s.split;
        answer = s.answer ∙ remaining-locate O E v base.graph;
      })
  advance-Moved (get_located v path) cs sound =
      reads-Moved cs v (get_located v path) (λ g. get_done v (deliver O v path g))
        (λ g. Continues.done (deliver O v path g)) (λ s. s)
  advance-Moved (get_done v r) cs sound =
      Continues-Moved cs v (get_done v r) _ (Continues.done r) (λ s. s)
  advance-Moved (start_asked flow) cs sound = look-Moved cs flow sound
  advance-Moved (start_seeding flow quads) cs sound = absurd (cc (sound, normal))
  advance-Moved (start_admitted flow) cs sound = finish-Moved cs flow sound.0 sound.1
  advance-Moved (start_done flow r) cs sound = record {
    new = [];
    allowed = tt;
    world = refl;
    sound = tt;
    explained = λ s. s;
  }
  advance-Moved (stop_asked flow) cs sound = record {
    new = terminates flow ∷ [];
    allowed = (sound, tt);
    world = unfold execute apply on_terminate in refl;
    sound = tt;
    explained = λ s. record { before = cs; after = []; split = refl };
  }
  advance-Moved (stop_done flow) cs sound = record {
    new = [];
    allowed = tt;
    world = refl;
    sound = tt;
    explained = λ s. s;
  }
