-- ===== src/Dataplane/Concurrent/Explained.antt =====
-- How what a task has found out and answered comes from calls and requests one after the other.
use mathlib.Core.List.{append_assoc}
use ds_sql_dps_rs.Prelude.{
  String, ℕ, true, ◌≡◌, ap, sym, ◌∙◌, List, ◌∷◌, ◌++◌, ok, ◌==◌, Bool-cases, Option-cases,
  Result-cases, inl, inr,
}
use ds_sql_dps_rs.Oxigraph.{Oxigraph}
use ds_sql_dps_rs.ConfigGraph.Offer.{PathBuf}
use ds_sql_dps_rs.ConfigGraph.Store.{ConfigGraph, file_path}
use ds_sql_dps_rs.ConfigGraph.Policy.{policy_jsonld}
use ds_sql_dps_rs.Dataplane.Tokens.{lookup}
use ds_sql_dps_rs.Dataplane.Handler.{World, FileOfferHandler, admit, on_start}
use ds_sql_dps_rs.Dataplane.Public.{Engine, Response, engine_request, get_file}
use ds_sql_dps_rs.Dataplane.Public.Laws.{WireDecision-cases}
use ds_sql_dps_rs.Dataplane.System.{Call, starts, terminates, execute}
use ds_sql_dps_rs.Dataplane.Concurrent.{
  Visit, Task, get_asked, get_checked, get_permitted, get_located, get_done, start_asked,
  start_seeding, start_admitted, start_done, stop_asked, stop_done, check, permit, locate,
}
use ds_sql_dps_rs.Dataplane.Concurrent.Steps.{remaining}

-- A task that has made no step.
abbrev pub IsFresh : Task → Type 0
IsFresh (get_asked v) = Unit
IsFresh (start_asked flow) = Unit
IsFresh (stop_asked flow) = Unit
IsFresh (get_checked v) = ⊥
IsFresh (get_permitted v) = ⊥
IsFresh (get_located v path) = ⊥
IsFresh (get_done v r) = ⊥
IsFresh (start_seeding flow quads) = ⊥
IsFresh (start_admitted flow) = ⊥
IsFresh (start_done flow r) = ⊥
IsFresh (stop_done flow) = ⊥

-- A request that has begun.
pub data Continues (v : Visit) : Task → Type 0 where
  checked : Continues v (get_checked v)
  permitted : Continues v (get_permitted v)
  located : (path : PathBuf) → Continues v (get_located v path)
  done : (r : Response) → Continues v (get_done v r)

module _ (O : Oxigraph) where
  pub check-Continues : (v : Visit) (w : World O) → Continues v (check O v w)
  check-Continues v w = elim (Option-cases (lookup v.token w.tokens)) [
    | inl p ↦ rw (p, check) (done _)
    | inr (entry, p) ↦ elim (Bool-cases (entry.dataset_id == v.dataset_id)) [
      | inl q ↦ rw (p, q, check) checked
      | inr q ↦ rw (p, q, check) (done _)
    ]
  ]

  pub permit-Continues : (E : Engine) (v : Visit) (g : ConfigGraph O) → Continues v (permit O E v g)
  permit-Continues E v g = elim (Result-cases (policy_jsonld O v.dataset_id g)) [
    | inr (e, p) ↦ rw (p, permit) (done _)
    | inl (doc, p) ↦ elim (Result-cases (E.ingest_policy_value doc)) [
      | inr (e, q) ↦ rw (p, q, permit) (done _)
      | inl (policy, q) ↦
          elim (WireDecision-cases
            (E.evaluate_request (engine_request O E v.env.now policy v.dataset_id)).0) [
              | inr d ↦ rw (p, q, d, permit) (done _)
              | inl d ↦ rw (p, q, d, permit) permitted
            ]
    ]
  ]

  pub locate-Continues : (v : Visit) (g : ConfigGraph O) → Continues v (locate O v g)
  locate-Continues v g = elim (Result-cases (file_path O v.dataset_id g)) [
    | inr (e, p) ↦ rw (p, locate) (done _)
    | inl (path, p) ↦ rw (p, locate) (located path)
  ]

module _ (O : Oxigraph) (h : FileOfferHandler) (g : ConfigGraph O) (Q : Call → Type 0) where
  -- What a task has found out about the graph, and that the call which it is about meets a condition.
  abbrev pub IsSound : Task → Type 0
  IsSound (start_admitted flow) = (admit O h flow g ≡ (ok tt, g)) × Q (starts flow)
  IsSound (start_seeding flow quads) = h.tck_mode ≡ true
  IsSound (start_asked flow) = Q (starts flow)
  IsSound (start_done flow r) = Unit
  IsSound (get_asked v) = Unit
  IsSound (get_checked v) = Unit
  IsSound (get_permitted v) = Unit
  IsSound (get_located v path) = Unit
  IsSound (get_done v r) = Unit
  IsSound (stop_asked flow) = Q (terminates flow)
  IsSound (stop_done flow) = Unit

  pub Continues-IsSound : {v : Visit} {t : Task} → Continues v t → IsSound t
  Continues-IsSound checked = tt
  Continues-IsSound permitted = tt
  Continues-IsSound (located path) = tt
  Continues-IsSound (done r) = tt

module _ (O : Oxigraph) (E : Engine) (uuid : ℕ → String) (h : FileOfferHandler)
    (base : World O) where
  -- The answer of `get_file` at a moment between the calls.
  pub record Served (cs : List Call) (v : Visit) (r : Response) : Type 0 where
    pub before : List Call
    pub after : List Call
    pub split : cs ≡ after ++ before
    pub answer : get_file O E v.env (execute O uuid h base before) v.dataset_id v.token ≡ r

  -- One of the calls, with those before it.
  pub record Called (cs : List Call) (c : Call) : Type 0 where
    pub before : List Call
    pub after : List Call
    pub split : cs ≡ after ++ (c ∷ before)

  abbrev pub Explained : List Call → Task → Type 0
  Explained cs (get_checked v) = Served cs v (remaining O E base.graph (get_checked v))
  Explained cs (get_permitted v) = Served cs v (remaining O E base.graph (get_permitted v))
  Explained cs (get_located v path) = Served cs v (remaining O E base.graph (get_located v path))
  Explained cs (get_done v r) = Served cs v r
  Explained cs (start_done flow r) =
      (c : Called cs (starts flow)) × (r
        ≡ (on_start O uuid h flow (execute O uuid h base c.before)).0)
  Explained cs (stop_done flow) = Called cs (terminates flow)
  Explained cs (get_asked v) = Unit
  Explained cs (start_asked flow) = Unit
  Explained cs (start_seeding flow quads) = Unit
  Explained cs (start_admitted flow) = Unit
  Explained cs (stop_asked flow) = Unit

  Served-append :
      {cs : List Call} {v : Visit} {r : Response} (new : List Call)
      → Served cs v r
      → Served (new ++ cs) v r
  Served-append new s = record {
    before = s.before;
    after = new ++ s.after;
    split = ap (λ x. new ++ x) s.split ∙ sym (append_assoc new s.after s.before);
    answer = s.answer;
  }

  abbrev Called-append :
      {cs : List Call} {c : Call} (new : List Call) → Called cs c → Called (new ++ cs) c
  Called-append {c = c} new s = record {
    before = s.before;
    after = new ++ s.after;
    split = ap (λ x. new ++ x) s.split ∙ sym (append_assoc new s.after (c ∷ s.before));
  }

  -- Later calls change no explanation.
  pub Explained-append : (cs new : List Call) (t : Task) → Explained cs t → Explained (new ++ cs) t
  Explained-append cs new (get_checked v) s = Served-append new s
  Explained-append cs new (get_permitted v) s = Served-append new s
  Explained-append cs new (get_located v path) s = Served-append new s
  Explained-append cs new (get_done v r) s = Served-append new s
  Explained-append cs new (start_done flow r) (c, e) = (Called-append new c, e)
  Explained-append cs new (stop_done flow) c = Called-append new c
  Explained-append cs new (get_asked v) s = tt
  Explained-append cs new (start_asked flow) s = tt
  Explained-append cs new (start_seeding flow quads) s = tt
  Explained-append cs new (start_admitted flow) s = tt
  Explained-append cs new (stop_asked flow) s = tt

  pub Continues-Explained :
      {cs : List Call} {v : Visit} {t : Task}
      → Continues v t
      → Served cs v (remaining O E base.graph t)
      → Explained cs t
  Continues-Explained checked s = s
  Continues-Explained permitted s = s
  Continues-Explained (located path) s = s
  Continues-Explained (done r) s = s
