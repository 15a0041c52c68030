-- ===== src/Dataplane/System/Deadline.antt =====
-- The deadline of dataplane/src/config.rs: `policy_not_after`, through the seeded policy, the reads
-- of the graph and the engine, to the answer of dataplane/src/public.rs.
use ds_sql_dps_rs.Prelude.{
  String, ℕ, Bool, true, false, ◌≡◌, refl, ap, sym, ◌∙◌, subst, Option, none, some, List, [], ◌∷◌,
  All, ok, eq_iff, if◌then◌else◌, Bool-cases, Option-cases, inl, inr,
}
use ds_sql_dps_rs.Oxigraph.{Oxigraph, IsInMemory}
use ds_sql_dps_rs.ConfigGraph.Offer.{FileOffer, unicode, to_string_lossy}
use ds_sql_dps_rs.ConfigGraph.Json.{Json, string, arr, obj, Fields, nil, cons, end, field}
use ds_sql_dps_rs.ConfigGraph.Store.{dataset_iri, policy_iri}
use ds_sql_dps_rs.ConfigGraph.Seed.Quads.{IsVocabulary, IsDatasetId}
use ds_sql_dps_rs.ConfigGraph.ReadBack.{offer_document}
use ds_sql_dps_rs.ConfigGraph.Ids.{has_hash}
use ds_sql_dps_rs.Dataplane.Tokens.{TokenRecord}
use ds_sql_dps_rs.Dataplane.Tokens.Laws.{granted}
use ds_sql_dps_rs.Dataplane.Config.{Config, file_offer}
use ds_sql_dps_rs.Dataplane.Handler.{FileOfferHandler}
use ds_sql_dps_rs.Dataplane.Public.{Engine, allow, other, advise, closed, Surroundings, get_file}
use ds_sql_dps_rs.Dataplane.Build.{Startup, App, build}
use ds_sql_dps_rs.Dataplane.System.{
  Call, execute, token_ops, file_answer, policy_answer, request_answer,
}
use ds_sql_dps_rs.Dataplane.System.Good.{IsValidCall}
use ds_sql_dps_rs.Dataplane.System.Laws.{build-Built, system_refines}

-- An ODRL offer with one permission to use, until a deadline or without one.
abbrev pub deadline_member : Option String → Fields
deadline_member none = end
deadline_member (some deadline) =
    field "constraint"
      (arr (
        cons
          (obj (
            field "leftOperand" (string "dateTime")
              (field "operator" (string "lteq") (field "rightOperand" (string deadline) end))))
          nil))
      end

abbrev pub use_offer : (uid target assigner : String) → Option String → Json
use_offer uid target assigner deadline = obj (
    field "@context" (string "http://www.w3.org/ns/odrl.jsonld") (
      field "@id" (string uid) (
        field "@type" (string "Offer") (
          field "target" (string target) (
            field "assigner" (string assigner) (
              field "permission"
                (arr (cons (obj (field "action" (string "use") (deadline_member deadline))) nil))
                end))))))

-- Whether a moment is in time, by an order of moments.
abbrev pub in_time : (String → String → Bool) → String → Option String → Bool
in_time lteq now none = true
in_time lteq now (some deadline) = lteq now deadline

-- The engine reads such offers, and allows their use in time alone.
pub record ReadsDeadlines (E : Engine) (lteq : String → String → Bool) : Type 0 where
  pub policy : (uid target assigner : String) → Option String → E.Policy
  pub ingested :
      (uid target assigner : String) (deadline : Option String)
      → E.ingest_policy_value (use_offer uid target assigner deadline)
        ≡ ok (policy uid target assigner deadline)
  pub decided :
      (uid target assigner now : String) (deadline : Option String)
      → (E.evaluate_request (
          E.request_for
            (policy uid target assigner deadline)
            target
            "use"
            (("dateTime", now) ∷ [])
            advise
            closed)).0
        ≡ (if in_time lteq now deadline then allow else other)

-- What the offer of a configuration says, under any dataset id.
offer_document-file_offer :
    (c : Config) (id : String)
    → offer_document (record (file_offer c) { dataset_id = id })
      ≡ use_offer (policy_iri id) (dataset_iri id) c.assigner c.policy_not_after
unfolding file_offer
offer_document-file_offer c id = elim (Option-cases c.policy_not_after) [
  | inl e ↦ rw (e)
  | inr (deadline, e) ↦ rw (e)
]

module _ (O : Oxigraph) (E : Engine) (lteq : String → String → Bool) (R : ReadsDeadlines E lteq)
    (env : Surroundings) where
  file_answer-served :
      (offer : FileOffer) (content : List ℕ)
      → env.read (unicode (to_string_lossy offer.file_path)) ≡ ok content
      → env.header_error offer.media_type ≡ none
      → (file_answer O E env offer).status ≡ 200
  file_answer-served offer content readable header = rw (file_answer, readable, header)

  policy_answer-deadline :
      (offer : FileOffer) (deadline : Option String) (content : List ℕ)
      → offer_document offer
        ≡ use_offer
            (policy_iri offer.dataset_id)
            (dataset_iri offer.dataset_id)
            offer.assigner
            deadline
      → env.read (unicode (to_string_lossy offer.file_path)) ≡ ok content
      → env.header_error offer.media_type ≡ none
      → (policy_answer O E env offer).status ≡ (if in_time lteq env.now deadline then 200 else 403)
  policy_answer-deadline offer deadline content doc readable header =
      let uid = policy_iri offer.dataset_id in
      let target = dataset_iri offer.dataset_id in
      let ingested = R.ingested uid target offer.assigner deadline in
      let decided = R.decided uid target offer.assigner env.now deadline in
      elim (Bool-cases (in_time lteq env.now deadline)) [
        | inl e ↦
            rw (policy_answer, doc, ingested, decided, e)
              (file_answer-served offer content readable header)
        | inr e ↦ rw (policy_answer, doc, ingested, decided, e)
      ]

  request_answer-deadline :
      (h : FileOfferHandler) (c : Config) (entry : TokenRecord) (id : String) (content : List ℕ)
      → h.default_offer ≡ file_offer c
      → entry.dataset_id ≡ id
      → env.read (unicode (to_string_lossy c.file_path)) ≡ ok content
      → env.header_error c.media_type ≡ none
      → (request_answer O E env h (some entry) id).status
        ≡ (if in_time lteq env.now c.policy_not_after then 200 else 403)
  unfolding file_offer
  request_answer-deadline h c entry id content same known readable header =
      rw (request_answer, (eq_iff entry.dataset_id id).1 known)
        (subst
          (λ o.
            (policy_answer O E env (record o { dataset_id = id })).status
            ≡ (if in_time lteq env.now c.policy_not_after then 200 else 403))
          (sym same)
          (policy_answer-deadline (record (file_offer c) { dataset_id = id }) c.policy_not_after
            content (offer_document-file_offer c id) readable header))

module _ (O : Oxigraph) (M : IsInMemory O) (V : IsVocabulary O) where
  -- On an in-memory store that takes the vocabulary's IRIs, after `build` with a valid dataset id
  -- without a `#`, and after any calls whose starts are for such ids, if tokens do not repeat, with
  -- an engine that reads offers with a deadline, and a file that can be read whose media type is a
  -- header value: a request with a token that the calls have granted for the dataset is answered
  -- with 200 if the configuration sets no deadline or the request is in time, and with 403 if it is
  -- late.
  pub get_file-deadline :
      (s : Startup) (c : Config) (app : App O)
      → build O s c ≡ ok app
      → IsDatasetId O c.dataset_id
      → has_hash c.dataset_id ≡ false
      → (uuid : ℕ → String) → ((j k : ℕ) → uuid j ≡ uuid k → j ≡ k)
      → (cs : List Call) → All (IsValidCall O) cs
      → (E : Engine) (env : Surroundings) (lteq : String → String → Bool) → ReadsDeadlines E lteq
      → (n : ℕ) (entry : TokenRecord) → granted n (token_ops app.handler cs) ≡ some entry
      → (content : List ℕ) → env.read (unicode (to_string_lossy c.file_path)) ≡ ok content
      → env.header_error c.media_type ≡ none
      → (get_file O E env
          (execute O uuid app.handler app.world cs)
          entry.dataset_id
          (uuid n)).status
        ≡ (if in_time lteq env.now c.policy_not_after then 200 else 403)
  get_file-deadline s c app started D plain uuid injective cs valid E env lteq R n entry token
        content readable header =
      ap (λ r. r.status)
        (system_refines O M V s c app started D plain uuid cs valid injective E env entry.dataset_id
            n
          ∙ ap (λ t. request_answer O E env app.handler t entry.dataset_id) token)
      ∙ request_answer-deadline O E lteq R env app.handler c entry entry.dataset_id content
          (build-Built O M V s c app started).offer refl readable header
