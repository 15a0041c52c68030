-- ===== src/Dataplane/Served.antt =====
-- dataplane/src/public.rs over config-graph/src/store.rs: when a request for a seeded offer gets
-- its file.
use ds_sql_dps_rs.Prelude.{
  String, ℕ, ◌≡◌, ◌↔◌, ap, sym, ◌∙◌, subst, ◌<>◌, some, none, List, [], ◌∷◌, All, All-map, ok,
  arith, Result-cases, Option-cases, inl, inr,
}
use ds_sql_dps_rs.Oxigraph.{Oxigraph, IsInMemory}
use ds_sql_dps_rs.ConfigGraph.Offer.{unicode, to_string_lossy, FileOffer}
use ds_sql_dps_rs.ConfigGraph.Store.{dataset_iri}
use ds_sql_dps_rs.ConfigGraph.Seed.Quads.{IsVocabulary}
use ds_sql_dps_rs.ConfigGraph.ReadBack.{offer_document}
use ds_sql_dps_rs.ConfigGraph.RoundTrip.{History, ReadsBack}
use ds_sql_dps_rs.ConfigGraph.RoundTrip.Laws.{History-ReadsBack}
use ds_sql_dps_rs.Dataplane.Handler.{World}
use ds_sql_dps_rs.Dataplane.Public.{
  Engine, advise, closed, allow, Response, Body, text, bytes, Surroundings, engine_request,
  get_file,
}
use ds_sql_dps_rs.Dataplane.Public.Laws.{WireDecision-cases, Authorized, get_file_safe}
use ds_sql_dps_rs.Dataplane.Flows.{get_file-Authorized}
use ds_sql_dps_rs.Dataplane.System.{file_answer, policy_answer}
use ds_sql_dps_rs.Dataplane.System.Answers.{enforce-ReadsBack}

-- The file of an offer with this content.
abbrev pub file_response : FileOffer → List ℕ → Response
file_response offer content = record {
  status = 200;
  content_type = some offer.media_type;
  body = bytes content;
}

abbrev body_bytes : Body → List ℕ
body_bytes (bytes content) = content
body_bytes (text message) = []

module _ (O : Oxigraph) (E : Engine) (env : Surroundings) where
  -- The offered policy can be ingested, and the engine allows its use at this time; the offered
  -- file has this content, and the offered media type is a header value.
  pub record IsAllowed (offer : FileOffer) (content : List ℕ) : Type 0 where
    pub policy : E.Policy
    pub ingested : E.ingest_policy_value (offer_document offer) ≡ ok policy
    pub decision :
        (E.evaluate_request (
          E.request_for policy
            ("urn:ds-sql-dps-rs:dataset:" <> offer.dataset_id)
            "use"
            (("dateTime", env.now) ∷ [])
            advise
            closed)).0
        ≡ allow
    pub readable : env.read (unicode (to_string_lossy offer.file_path)) ≡ ok content
    pub header : env.header_error offer.media_type ≡ none

  policy_answer-IsAllowed :
      (offer : FileOffer) (content : List ℕ)
      → IsAllowed offer content
      → policy_answer O E env offer ≡ file_response offer content
  unfolding to_string_lossy dataset_iri
  policy_answer-IsAllowed offer content a =
      rw (a.ingested, a.decision, policy_answer, a.readable, file_answer, a.header)

  IsAllowed-policy_answer :
      (offer : FileOffer)
      → (policy_answer O E env offer).status ≡ 200
      → (content : List ℕ) × IsAllowed offer content
  unfolding to_string_lossy dataset_iri
  IsAllowed-policy_answer offer h =
      elim (Result-cases (E.ingest_policy_value (offer_document offer))) [
        | inr (e, p) ↦ absurd (ground (arith, p))
        | inl (policy, p) ↦
            elim (WireDecision-cases
              (E.evaluate_request (engine_request O E env.now policy offer.dataset_id)).0) [
                | inr d ↦ absurd (ground (arith, p, d))
                | inl d ↦
                    elim (Result-cases (env.read (unicode (to_string_lossy offer.file_path)))) [
                      | inr (e, q) ↦ absurd (ground (arith, p, d, q))
                      | inl (content, q) ↦ elim (Option-cases (env.header_error offer.media_type)) [
                        | inr (e, k) ↦ absurd (ground (arith, p, d, q, k))
                        | inl k ↦ (
                          content,
                          record {
                            policy = policy;
                            ingested = p;
                            decision = d;
                            readable = q;
                            header = k;
                          },
                        )
                      ]
                    ]
              ]
      ]

module _ (O : Oxigraph) (M : IsInMemory O) (V : IsVocabulary O) (E : Engine) (env : Surroundings)
    (w : World O) (token : String) where
  -- What a request needs to get the file of an offer.
  pub record Earns (offer : FileOffer) (content : List ℕ) : Type 0 where
    pub authorized : Authorized O E env w offer.dataset_id token
    pub allowed : IsAllowed O E env offer content

  -- That success, and the answer with a content, is what the request has earned.
  abbrev pub IsServedIff : FileOffer → Type 0
  IsServedIff offer =
      ((get_file O E env w offer.dataset_id token).status ≡ 200
        ↔ (content : List ℕ) × Earns offer content)
      × ((content : List ℕ)
          → get_file O E env w offer.dataset_id token ≡ file_response offer content
            ↔ Earns offer content)

  Earns-get_file :
      (offer : FileOffer) (content : List ℕ)
      → ReadsBack O M V w.graph offer
      → Earns offer content
      → get_file O E env w offer.dataset_id token ≡ file_response offer content
  Earns-get_file offer content reads earned =
      get_file-Authorized O E env w offer.dataset_id token earned.authorized
      ∙ enforce-ReadsBack O M V E env w.graph offer reads
      ∙ policy_answer-IsAllowed O E env offer content earned.allowed

  get_file-Earns :
      (offer : FileOffer)
      → ReadsBack O M V w.graph offer
      → (get_file O E env w offer.dataset_id token).status ≡ 200
      → (content : List ℕ) × Earns offer content
  get_file-Earns offer reads h =
      let (auth, allowed, delivered) = get_file_safe O E env w offer.dataset_id token h in
      let answer =
        get_file-Authorized O E env w offer.dataset_id token auth
        ∙ enforce-ReadsBack O M V E env w.graph offer reads in
      let (content, good) =
        IsAllowed-policy_answer O E env offer (ap (λ r. r.status) (sym answer) ∙ h) in
      (content, record { authorized = auth; allowed = good })

  ReadsBack-IsServedIff : (offer : FileOffer) → ReadsBack O M V w.graph offer → IsServedIff offer
  ReadsBack-IsServedIff offer reads = (
    (get_file-Earns offer reads, λ e. ap (λ r. r.status) (Earns-get_file offer e.0 reads e.1)),
    λ content. (
      λ h.
          (let (found, earned) = get_file-Earns offer reads (ap (λ r. r.status) h) in
            let same : found ≡ content =
              ap (λ r. body_bytes r.body) (sym (Earns-get_file offer found reads earned) ∙ h) in
            subst (Earns offer) same earned),
      Earns-get_file offer content reads,
    ),
  )

  -- On an in-memory store that takes the vocabulary's IRIs, from a graph that offers were seeded
  -- into, for each of these offers: a request is answered with 200 if and only if its token is of a
  -- running flow for the offer's dataset, the engine ingests the offered policy and allows the use
  -- of the dataset at this time, the offered file can be read and the offered media type is a header
  -- value; and it is answered with a content under the offer's media type if and only if all
  -- this holds and the offered file has this content.
  pub get_file_iff :
      {offers : List FileOffer} → History O M V w.graph offers → All IsServedIff offers
  get_file_iff {offers = offers} history =
      All-map (ReadsBack O M V w.graph) IsServedIff ReadsBack-IsServedIff offers
        (History-ReadsBack O M V history)
