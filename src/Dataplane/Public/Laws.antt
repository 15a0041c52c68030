-- ===== src/Dataplane/Public/Laws.antt =====
-- When the public endpoint serves the file, and what it serves.
use ds_sql_dps_rs.Prelude.{
  String, ℕ, ◌≡◌, refl, ap, sym, ◌∙◌, some, List, ok, ◌==◌, eq_iff, arith, Bool-cases, Option-cases,
  Result-cases, inl, inr, subst, ◌⊎◌,
}
use ds_sql_dps_rs.Oxigraph.{Oxigraph}
use ds_sql_dps_rs.ConfigGraph.Offer.{PathBuf}
use ds_sql_dps_rs.ConfigGraph.Json.{Json}
use ds_sql_dps_rs.ConfigGraph.Store.{ConfigGraph, file_path, media_type}
use ds_sql_dps_rs.ConfigGraph.Policy.{policy_jsonld}
use ds_sql_dps_rs.Dataplane.Tokens.{TokenRecord, lookup}
use ds_sql_dps_rs.Dataplane.Handler.{World}
use ds_sql_dps_rs.Dataplane.Public.{
  Engine, WireDecision, allow, other, Response, bytes, Surroundings, engine_request, serve_bytes,
  enforce, get_file, media_or_default,
}

pub WireDecision-cases : (d : WireDecision) → (d ≡ allow) ⊎ (d ≡ other)
WireDecision-cases allow = inl refl
WireDecision-cases other = inr refl

module _ (O : Oxigraph) (E : Engine) (env : Surroundings) where
  -- The file as the graph has it: its path leads to this content, which is the answer.
  pub record Delivered (g : ConfigGraph O) (id : String) (r : Response) : Type 0 where
    pub path : PathBuf
    pub found : file_path O id g ≡ ok path
    pub content : List ℕ
    pub read : env.read path ≡ ok content
    pub answer : r ≡ record {
      status = 200;
      content_type = some (media_or_default (media_type O id g));
      body = bytes content;
    }

  -- The engine has allowed the policy that the graph holds now, at this time.
  pub record Allowed (g : ConfigGraph O) (id : String) : Type 0 where
    pub document : Json
    pub read_policy : policy_jsonld O id g ≡ ok document
    pub policy : E.Policy
    pub ingested : E.ingest_policy_value document ≡ ok policy
    pub decision : (E.evaluate_request (engine_request O E env.now policy id)).0 ≡ allow

  -- The token is of a running flow for this dataset.
  pub record Authorized (w : World O) (id token : String) : Type 0 where
    pub entry : TokenRecord
    pub known : lookup token w.tokens ≡ some entry
    pub for_dataset : entry.dataset_id ≡ id

  serve_bytes-Delivered :
      (g : ConfigGraph O) (id : String)
      → (serve_bytes O E env g id).status ≡ 200
      → Delivered g id (serve_bytes O E env g id)
  unfolding serve_bytes
  serve_bytes-Delivered g id h = elim (Result-cases (file_path O id g)) [
    | inr (e, p) ↦ absurd (ground (arith, p))
    | inl (path, p) ↦ elim (Result-cases (env.read path)) [
      | inr (e, q) ↦ absurd (ground (arith, p, q))
      | inl (content, q) ↦
          elim (Option-cases (env.header_error (media_or_default (media_type O id g)))) [
            | inr (e, k) ↦ absurd (ground (arith, p, q, k))
            | inl k ↦ record {
              path = path;
              found = p;
              content = content;
              read = q;
              answer = rw (p, q, k, serve_bytes);
            }
          ]
    ]
  ]

  enforce-Allowed :
      (g : ConfigGraph O) (id : String)
      → (enforce O E env g id).status ≡ 200
      → Allowed g id × Delivered g id (enforce O E env g id)
  unfolding enforce
  enforce-Allowed g id h = elim (Result-cases (policy_jsonld O id g)) [
    | inr (e, p) ↦ absurd (ground (arith, p))
    | inl (document, p) ↦ elim (Result-cases (E.ingest_policy_value document)) [
      | inr (e, q) ↦ absurd (ground (arith, p, q))
      | inl (policy, q) ↦
          elim (WireDecision-cases (E.evaluate_request (engine_request O E env.now policy id)).0) [
            | inr d ↦ absurd (ground (arith, p, q, d))
            | inl d ↦
                let served : enforce O E env g id ≡ serve_bytes O E env g id =
                  rw (p, q, d, enforce) in
                (
                  record {
                    document = document;
                    read_policy = p;
                    policy = policy;
                    ingested = q;
                    decision = d;
                  },
                  subst (Delivered g id) (sym served)
                      (serve_bytes-Delivered g id (sym (ap (λ r. r.status) served) ∙ h)),
                )
          ]
    ]
  ]

  -- A request that is answered with 200 had a live token for the dataset, the engine allowed the
  -- policy that the graph holds, at this time, and the answer is the file.
  pub get_file_safe :
      (w : World O) (id token : String)
      → (get_file O E env w id token).status ≡ 200
      → Authorized w id token
        × Allowed w.graph id
        × Delivered w.graph id (get_file O E env w id token)
  unfolding get_file
  get_file_safe w id token h = elim (Option-cases (lookup token w.tokens)) [
    | inl p ↦ absurd (ground (arith, p))
    | inr (entry, p) ↦ elim (Bool-cases (entry.dataset_id == id)) [
      | inr q ↦ absurd (ground (arith, p, q))
      | inl q ↦
          let enforced : get_file O E env w id token ≡ enforce O E env w.graph id =
            rw (p, q, get_file) in
          let (allowed, delivered) =
            enforce-Allowed w.graph id (sym (ap (λ r. r.status) enforced) ∙ h) in
          (
            record { entry = entry; known = p; for_dataset = (eq_iff entry.dataset_id id).0 q },
            allowed,
            subst (Delivered w.graph id) (sym enforced) delivered,
          )
    ]
  ]
