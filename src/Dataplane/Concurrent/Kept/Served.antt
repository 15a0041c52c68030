-- ===== src/Dataplane/Concurrent/Kept/Served.antt =====
-- What a request for an offer is answered with, if the offer reads back at every moment.
use ds_sql_dps_rs.Prelude.{
  String, ℕ, ◌≡◌, ◌≢◌, ap, sym, ◌∙◌, some, List, [], ◌∷◌, All, ok, ok-injective, ◌⊎◌, inl, inr,
  ◌==◌, eq_iff, Bool-cases,
}
use ds_sql_dps_rs.Oxigraph.{Oxigraph, IsInMemory}
use ds_sql_dps_rs.ConfigGraph.Offer.{PathBuf, unicode, to_string_lossy, FileOffer}
use ds_sql_dps_rs.ConfigGraph.Store.{file_path, media_type}
use ds_sql_dps_rs.ConfigGraph.Policy.{policy_jsonld}
use ds_sql_dps_rs.ConfigGraph.Seed.Quads.{IsVocabulary}
use ds_sql_dps_rs.ConfigGraph.ReadBack.{offer_document}
use ds_sql_dps_rs.ConfigGraph.RoundTrip.{ReadsBack}
use ds_sql_dps_rs.Dataplane.Handler.{FileOfferHandler}
use ds_sql_dps_rs.Dataplane.Public.{Engine, allow, Response, bytes, engine_request}
use ds_sql_dps_rs.Dataplane.Public.Laws.{Allowed}
use ds_sql_dps_rs.Dataplane.Concurrent.{
  Visit, Task, get_asked, get_checked, get_permitted, get_located, get_done, start_asked,
  start_seeding, start_admitted, start_done, stop_asked, stop_done,
}
use ds_sql_dps_rs.Dataplane.Concurrent.Moments.{
  Moment, Happened, Justified, WasAuthorized, WasAllowed, WasLocated, WasRead,
}

module _ (O : Oxigraph) where
  -- What happened, with what holds at all moments.
  Happened-use :
      (P : Moment O → List (Moment O) → Type 0) (Q : Moment O → Type 0) (C : Type 0)
      (past : List (Moment O))
      → All Q past
      → ((m : Moment O) (before : List (Moment O)) → Q m → All Q before → P m before → C)
      → Happened O P past
      → C
  Happened-use P Q C [] qs f p = absurd p
  Happened-use P Q C (m ∷ before) (q, qs) f (inl p) = f m before q qs p
  Happened-use P Q C (m ∷ before) (q, qs) f (inr p) = Happened-use P Q C before qs f p

  -- What happened before something happened.
  Happened-before :
      (P Q : Moment O → List (Moment O) → Type 0) (past : List (Moment O))
      → ((m : Moment O) (before : List (Moment O)) → P m before → Happened O Q before)
      → Happened O P past
      → Happened O Q past
  Happened-before P Q [] f p = absurd p
  Happened-before P Q (m ∷ before) f (inl p) = inr (f m before p)
  Happened-before P Q (m ∷ before) f (inr p) = inr (Happened-before P Q before f p)

module _ (O : Oxigraph) (E : Engine) where
  -- The engine has allowed the offer's policy document, and the answer is the offer's file.
  pub record OfferServed (offer : FileOffer) (v : Visit) (r : Response) : Type 0 where
    pub policy : E.Policy
    pub ingested : E.ingest_policy_value (offer_document offer) ≡ ok policy
    pub decision :
        (E.evaluate_request (engine_request O E v.env.now policy offer.dataset_id)).0 ≡ allow
    pub content : List ℕ
    pub read : v.env.read (unicode (to_string_lossy offer.file_path)) ≡ ok content
    pub answer :
        r ≡ record { status = 200; content_type = some offer.media_type; body = bytes content }

module _ (O : Oxigraph) (M : IsInMemory O) (V : IsVocabulary O) (E : Engine) (uuid : ℕ → String)
    (h : FileOfferHandler) (offer : FileOffer) where
  -- A request for the offer's dataset that is answered with 200 gets the offer, and its token was
  -- good at one of the moments.
  abbrev pub IsServed : List (Moment O) → Task → Type 0
  IsServed past (get_done v r) =
      (v.dataset_id ≢ offer.dataset_id)
      ⊎ ((r.status ≢ 200) ⊎ (WasAuthorized O E uuid h v past × OfferServed O E offer v r))
  IsServed past (get_asked v) = Unit
  IsServed past (get_checked v) = Unit
  IsServed past (get_permitted v) = Unit
  IsServed past (get_located v path) = Unit
  IsServed past (start_asked flow) = Unit
  IsServed past (start_seeding flow quads) = Unit
  IsServed past (start_admitted flow) = Unit
  IsServed past (start_done flow r) = Unit
  IsServed past (stop_asked flow) = Unit
  IsServed past (stop_done flow) = Unit

  abbrev pub ReadsAt : Moment O → Type 0
  ReadsAt m = ReadsBack O M V m.world.graph offer

  WasRead-WasAuthorized :
      (v : Visit) (r : Response) (past : List (Moment O))
      → WasRead O E uuid h v r past
      → WasAuthorized O E uuid h v past
  WasRead-WasAuthorized v r past = Happened-before O _ _ past λ m before (path, file, located).
      Happened-before O _ _ before
        (λ m' before' p. Happened-before O _ _ before' (λ m'' before'' q. q.1) p.1) located

  module _ (v : Visit) (same : v.dataset_id ≡ offer.dataset_id) where
    Allowed-policy :
        (m : Moment O)
        → ReadsAt m
        → Allowed O E v.env m.world.graph v.dataset_id
        → (policy : E.Policy) × (E.ingest_policy_value (offer_document offer) ≡ ok policy)
          × ((E.evaluate_request (engine_request O E v.env.now policy offer.dataset_id)).0 ≡ allow)
    Allowed-policy m reads a =
        let doc : a.document ≡ offer_document offer =
          ok-injective
            (sym a.read_policy ∙ ap (λ i. policy_jsonld O i m.world.graph) same ∙ reads.policy) in
        (
          a.policy,
          ap E.ingest_policy_value (sym doc) ∙ a.ingested,
          ap (λ i. (E.evaluate_request (engine_request O E v.env.now a.policy i)).0) (sym same)
              ∙ a.decision,
        )

    WasAllowed-policy :
        (past : List (Moment O))
        → All ReadsAt past
        → WasAllowed O E uuid h v past
        → (policy : E.Policy) × (E.ingest_policy_value (offer_document offer) ≡ ok policy)
          × ((E.evaluate_request (engine_request O E v.env.now policy offer.dataset_id)).0 ≡ allow)
    WasAllowed-policy past reads =
        Happened-use O _ ReadsAt _ past reads (λ m before now earlier p. Allowed-policy m now p.0)

    WasLocated-path :
        (path : PathBuf) (past : List (Moment O))
        → All ReadsAt past
        → WasLocated O E uuid h v path past
        → path ≡ unicode (to_string_lossy offer.file_path)
    WasLocated-path path past reads =
        Happened-use O _ ReadsAt _ past reads (λ m before now earlier p.
          ok-injective (sym p.0 ∙ ap (λ i. file_path O i m.world.graph) same ∙ now.path))

    WasRead-OfferServed :
        (r : Response) (past : List (Moment O))
        → All ReadsAt past
        → WasRead O E uuid h v r past
        → OfferServed O E offer v r
    WasRead-OfferServed r past reads =
        Happened-use O _ ReadsAt _ past reads (λ m before now earlier (path, file, was_located).
          let (policy, ingested, decision) =
            Happened-use O _ ReadsAt _ before earlier
              (λ m' before' now' earlier' q. WasAllowed-policy before' earlier' q.1) was_located in
          let media = ap (λ i. media_type O i m.world.graph) same ∙ now.media in
          record {
            policy = policy;
            ingested = ingested;
            decision = decision;
            content = file.content;
            read =
                ap v.env.read (sym (WasLocated-path path before earlier was_located)) ∙ file.read;
            answer = rw media at file.answer;
          })

  pub Justified-IsServed :
      (past : List (Moment O)) (t : Task)
      → All ReadsAt past
      → Justified O E uuid h past t
      → IsServed past t
  Justified-IsServed past (get_done v r) reads (inl bad) = inr (inl bad)
  Justified-IsServed past (get_done v r) reads (inr was_read) =
      elim (Bool-cases (v.dataset_id == offer.dataset_id)) [
        | inl e ↦
            let same = (eq_iff v.dataset_id offer.dataset_id).0 e in
            inr (
              inr (
                WasRead-WasAuthorized v r past was_read,
                WasRead-OfferServed v same r past reads was_read,
              ))
        | inr e ↦ inl (λ same. cc (e, (eq_iff v.dataset_id offer.dataset_id).1 same))
      ]
  Justified-IsServed past (get_asked v) reads j = tt
  Justified-IsServed past (get_checked v) reads j = tt
  Justified-IsServed past (get_permitted v) reads j = tt
  Justified-IsServed past (get_located v path) reads j = tt
  Justified-IsServed past (start_asked flow) reads j = tt
  Justified-IsServed past (start_seeding flow quads) reads j = tt
  Justified-IsServed past (start_admitted flow) reads j = tt
  Justified-IsServed past (start_done flow r) reads j = tt
  Justified-IsServed past (stop_asked flow) reads j = tt
  Justified-IsServed past (stop_done flow) reads j = tt
