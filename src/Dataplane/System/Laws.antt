-- ===== src/Dataplane/System/Laws.antt =====
-- What requests are answered in a data plane that was built and has been called.
use ds_sql_dps_rs.Prelude.{
  String, ◌<>◌, ℕ, false, ◌≡◌, refl, ap, sym, ◌∙◌, subst, some, List, [], ◌∷◌, All, ok, map_err,
  bind_ok, All-both, ok-injective, Option-cases, Bool-cases, ◌==◌, eq_iff, inl, inr,
}
use ds_sql_dps_rs.Prelude.Decimal.{to_string}
use ds_sql_dps_rs.Oxigraph.{Oxigraph, IsInMemory}
use ds_sql_dps_rs.ConfigGraph.Seed.Quads.{IsVocabulary, IsDatasetId}
use ds_sql_dps_rs.ConfigGraph.RoundTrip.{History, ReadsBack}
use ds_sql_dps_rs.ConfigGraph.RoundTrip.Laws.{History-ReadsBack}
use ds_sql_dps_rs.ConfigGraph.Ids.{has_hash}
use ds_sql_dps_rs.Dataplane.Tokens
use ds_sql_dps_rs.Dataplane.Tokens.{TokenRecord, lookup}
use ds_sql_dps_rs.Dataplane.Tokens.Laws.{run, granted, lookup-run}
use ds_sql_dps_rs.Dataplane.Config.{Config, file_offer}
use ds_sql_dps_rs.Dataplane.Handler.{World, FileOfferHandler}
use ds_sql_dps_rs.Dataplane.Public.{Engine, Surroundings, get_file}
use ds_sql_dps_rs.Dataplane.Build.{Startup, App, build, seeded_graph, base_url, try_register}
use ds_sql_dps_rs.Dataplane.Build.Laws.{seeded_graph-total}
use ds_sql_dps_rs.Dataplane.System.{Call, execute, token_ops, offer_under, request_answer}
use ds_sql_dps_rs.Dataplane.System.Answers.{enforce-ReadsBack}
use ds_sql_dps_rs.Dataplane.System.Good.{offers_have-All, All-find, Good, IsValidCall}
use ds_sql_dps_rs.Dataplane.System.Keeps.{execute-Good}

module _ (O : Oxigraph) (M : IsInMemory O) (V : IsVocabulary O) where
  -- An application that `build` returns.
  pub record Built (c : Config) (app : App O) : Type 0 where
    pub graph : seeded_graph O c ≡ ok app.world.graph
    pub tokens : app.world.tokens ≡ Tokens.default
    pub offer : app.handler.default_offer ≡ file_offer c
    pub mode : app.handler.tck_mode ≡ c.tck_mode

  pub build-Built : (s : Startup) (c : Config) (app : App O) → build O s c ≡ ok app → Built c app
  unfolding build
  build-Built s c app h =
      let (g, seeded, h1) = bind_ok (seeded_graph O c) h in
      let (l, bound, h2) = bind_ok (s.bind 0 ("0.0.0.0:" <> to_string c.public_port)) h1 in
      let (url, based, h3) = bind_ok (base_url c.public_port l c.public_base_url) h2 in
      let (created, done, h4) = bind_ok s.create_control_plane h3 in
      let (sdk, made, h5) =
        bind_ok (map_err (λ e. "failed to build DataPlaneSdk: " <> e) s.build_sdk) h4 in
      let (l', bound', h6) = bind_ok (s.bind 1 ("0.0.0.0:" <> to_string c.signaling_port)) h5 in
      let (events, registered, h7) = bind_ok (try_register s.put c l') h6 in
      subst (Built c) (ok-injective h7)
        (record { graph = seeded; tokens = refl; offer = refl; mode = refl })

  module _ (uuid : ℕ → String) (h : FileOfferHandler) where
    fresh-Good :
        (w : World O)
        → History O M V w.graph (h.default_offer ∷ [])
        → has_hash h.default_offer.dataset_id ≡ false
        → w.tokens ≡ Tokens.default
        → Good O M V uuid h w []
    unfolding run token_ops
    fresh-Good w history plain fresh = record {
      offers = h.default_offer ∷ [];
      history = history;
      plain = (plain, tt);
      ours = (refl, tt);
      later = [];
      split = refl;
      only = λ normal. refl;
      tokens = fresh;
      backed = rw fresh tt;
    }

    -- A dataset that a token is worth is one of the handler's offers, and reads back.
    backed-ReadsBack :
        (w : World O) (cs : List Call) (token : String) (entry : TokenRecord)
        → Good O M V uuid h w cs
        → lookup token w.tokens ≡ some entry
        → ReadsBack O M V w.graph (offer_under h entry.dataset_id)
    unfolding lookup
    backed-ReadsBack w cs token entry g known =
        let (o, same, (reads, ours)) =
          offers_have-All {P = λ o. ReadsBack O M V w.graph o × (o ≡ offer_under h o.dataset_id)}
            entry.dataset_id g.offers (All-find g.offers token entry w.tokens.tokens g.backed known)
            (All-both (ReadsBack O M V w.graph) (λ o. o ≡ offer_under h o.dataset_id) g.offers
              (History-ReadsBack O M V g.history) g.ours) in
        subst (λ i. ReadsBack O M V w.graph (offer_under h i)) same
          (subst (ReadsBack O M V w.graph) ours reads)

    pub get_file-Good :
        (E : Engine) (env : Surroundings) (w : World O) (cs : List Call) (id token : String)
        → Good O M V uuid h w cs
        → get_file O E env w id token ≡ request_answer O E env h (lookup token w.tokens) id
    unfolding get_file
    get_file-Good E env w cs id token g = elim (Option-cases (lookup token w.tokens)) [
      | inl p ↦ rw (p, get_file)
      | inr (entry, p) ↦ elim (Bool-cases (entry.dataset_id == id)) [
        | inr q ↦ rw (p, q, get_file)
        | inl q ↦
            let same : entry.dataset_id ≡ id = (eq_iff entry.dataset_id id).0 q in
            rw (p, q, get_file)
              (enforce-ReadsBack O M V E env w.graph (offer_under h id) (
                subst (λ i. ReadsBack O M V w.graph (offer_under h i)) same
                  (backed-ReadsBack w cs token entry g p)))
      ]
    ]

  Built-Good :
      (uuid : ℕ → String) (c : Config) (app : App O)
      → IsDatasetId O c.dataset_id
      → has_hash c.dataset_id ≡ false
      → Built c app
      → Good O M V uuid app.handler app.world []
  unfolding file_offer
  Built-Good uuid c app D plain b =
      let (g, seeded, history) = seeded_graph-total O M V c D in
      let same : g ≡ app.world.graph = ok-injective (sym seeded ∙ b.graph) in
      fresh-Good uuid app.handler app.world
        (subst (λ x. History O M V app.world.graph (x ∷ [])) (sym b.offer)
          (subst (λ x. History O M V x (file_offer c ∷ [])) same history))
        (ap (λ o. has_hash o.dataset_id) b.offer ∙ plain) b.tokens

  module _ (s : Startup) (c : Config) (app : App O) (started : build O s c ≡ ok app)
      (D : IsDatasetId O c.dataset_id) (plain : has_hash c.dataset_id ≡ false) (uuid : ℕ → String)
      (cs : List Call) (valid : All (IsValidCall O) cs) where
    -- On an in-memory store that takes the vocabulary's IRIs, after `build` with a valid dataset id
    -- without a `#`, and after any calls whose starts are for such ids: the handler's offer and mode
    -- are the configured ones; the graph is a history of seedings whose first is the configured
    -- offer, under its own id, and, in TCK mode alone, the others are this offer under other ids; the
    -- tokens are those of the accepted starts and of the terminations; and every token is worth a
    -- dataset of the graph.
    pub Built-invariant :
        (app.handler.default_offer ≡ file_offer c)
        × (app.handler.tck_mode ≡ c.tck_mode)
        × Good O M V uuid app.handler (execute O uuid app.handler app.world cs) cs
    Built-invariant =
        let b = build-Built s c app started in
        (
          b.offer,
          b.mode,
          execute-Good O M V uuid app.handler app.world cs valid (Built-Good uuid c app D plain b),
        )

    -- On an in-memory store that takes the vocabulary's IRIs, after `build` with a valid dataset id
    -- without a `#`, and after any calls whose starts are for such ids, if tokens do not repeat: a
    -- request is answered as the accepted starts and the terminations say what its token is worth,
    -- and by the policy document of the configured offer under the token's dataset, its file and its
    -- media type, without a graph.
    pub system_refines :
        (injective : (j k : ℕ) → uuid j ≡ uuid k → j ≡ k) (E : Engine) (env : Surroundings)
        (id : String) (n : ℕ)
        → get_file O E env (execute O uuid app.handler app.world cs) id (uuid n)
          ≡ request_answer O E env app.handler (granted n (token_ops app.handler cs)) id
    system_refines injective E env id n =
        let (offer, mode, g) = Built-invariant in
        get_file-Good uuid app.handler E env (execute O uuid app.handler app.world cs) cs id
          (uuid n) g
        ∙ ap (λ t. request_answer O E env app.handler t id)
            (ap (lookup (uuid n)) g.tokens ∙ lookup-run uuid injective n (token_ops app.handler cs))
