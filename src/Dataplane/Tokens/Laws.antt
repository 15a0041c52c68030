-- ===== src/Dataplane/Tokens/Laws.antt =====
-- What a bearer token is worth after each operation, and after any sequence of them.
use ds_sql_dps_rs.Prelude.{
  String, ℕ, suc, ◌≡◌, ◌≢◌, refl, ap, ◌∙◌, Option, none, some, List, [], ◌∷◌, ◌==◌, eq_iff,
  eq_of_ne, if◌then◌else◌, nat_eq, arith,
}
use ds_sql_dps_rs.Dataplane.Tokens.{
  TokenRecord, TokenStore, default, find, insert, retain_other, issue, lookup, revoke_flow,
}

-- The record of a token, unless it belongs to the flow.
abbrev pub unless_flow : String → Option TokenRecord → Option TokenRecord
unless_flow flow_id none = none
unless_flow flow_id (some entry) = if entry.flow_id == flow_id then none else some entry

find-insert :
    (k j : String) (entry : TokenRecord) (m : List (String × TokenRecord))
    → find j (insert k entry m) ≡ (if k == j then some entry else find j m)
unfolding find insert
find-insert k j entry [] = refl
find-insert k j entry ((i, old) ∷ m) =
    ground (arith, eq_iff k j, eq_iff i k, eq_iff i j, find-insert k j entry m)

-- No key stands twice.
abbrev pub HasNoRepeats : List (String × TokenRecord) → Type 0
HasNoRepeats [] = Unit
HasNoRepeats ((k, entry) ∷ m) = (find k m ≡ none) × HasNoRepeats m

find-retain_none :
    (flow_id j : String) (m : List (String × TokenRecord))
    → find j m ≡ none
    → find j (retain_other flow_id m) ≡ none
unfolding find retain_other
find-retain_none flow_id j [] h = refl
find-retain_none flow_id j ((i, old) ∷ m) h = ground (arith, find-retain_none flow_id j m)

find-retain_other :
    (flow_id j : String) (m : List (String × TokenRecord))
    → HasNoRepeats m
    → find j (retain_other flow_id m) ≡ unless_flow flow_id (find j m)
unfolding find retain_other
find-retain_other flow_id j [] h = refl
find-retain_other flow_id j ((i, old) ∷ m) (fresh, h) =
    ground (arith, eq_iff i j, find-retain_other flow_id j m h, find-retain_none flow_id j m)

HasNoRepeats-insert :
    (k : String) (entry : TokenRecord) (m : List (String × TokenRecord))
    → HasNoRepeats m
    → HasNoRepeats (insert k entry m)
unfolding insert find
HasNoRepeats-insert k entry [] h = (refl, tt)
HasNoRepeats-insert k entry ((i, old) ∷ m) h =
    ground
      (arith, eq_iff i k, eq_iff k i, find-insert k i entry m, HasNoRepeats-insert k entry m h.1)

HasNoRepeats-retain_other :
    (flow_id : String) (m : List (String × TokenRecord))
    → HasNoRepeats m
    → HasNoRepeats (retain_other flow_id m)
unfolding retain_other
HasNoRepeats-retain_other flow_id [] h = tt
HasNoRepeats-retain_other flow_id ((i, old) ∷ m) h =
    ground (arith, HasNoRepeats-retain_other flow_id m h.1, find-retain_none flow_id i m h.0)

-- Any token after a revocation: gone if it was the flow's, else as before.
pub lookup-revoke_flow :
    (flow_id token : String) (s : TokenStore)
    → HasNoRepeats s.tokens
    → lookup token (revoke_flow flow_id s) ≡ unless_flow flow_id (lookup token s)
unfolding lookup revoke_flow
lookup-revoke_flow flow_id token s h = find-retain_other flow_id token s.tokens h

-- The operations of the store.
pub data Op : Type 0 where
  start : (flow_id dataset_id : String) → Op
  terminate : (flow_id : String) → Op

-- How many tokens a history issued.
abbrev pub starts : List Op → ℕ
starts [] = 0
starts (start f d ∷ h) = suc (starts h)
starts (terminate f ∷ h) = starts h

-- The record that the `n`-th token should have after a history, whose latest operation is first.
abbrev pub granted : ℕ → List Op → Option TokenRecord
granted n [] = none
granted n (start f d ∷ h) =
    if nat_eq (starts h) n then some (record { flow_id = f; dataset_id = d }) else granted n h
granted n (terminate f ∷ h) = unless_flow f (granted n h)

module _ (uuid : ℕ → String) where
  pub lookup-issue :
      (f d token : String) (s : TokenStore)
      → lookup token (issue uuid f d s).1 ≡ (
          if uuid s.issued == token
          then some (record { flow_id = f; dataset_id = d })
          else lookup token s)
  unfolding lookup issue
  lookup-issue f d token s = find-insert (uuid s.issued) token _ s.tokens

  unfoldable pub run : List Op → TokenStore
  run [] = default
  run (start f d ∷ h) = (issue uuid f d (run h)).1
  run (terminate f ∷ h) = revoke_flow f (run h)

  pub run-HasNoRepeats : (h : List Op) → HasNoRepeats (run h).tokens
  unfolding run issue revoke_flow
  run-HasNoRepeats [] = tt
  run-HasNoRepeats (start f d ∷ h) = HasNoRepeats-insert _ _ (run h).tokens (run-HasNoRepeats h)
  run-HasNoRepeats (terminate f ∷ h) =
      HasNoRepeats-retain_other f (run h).tokens (run-HasNoRepeats h)

  pub issued-run : (h : List Op) → (run h).issued ≡ starts h
  unfolding run issue revoke_flow
  issued-run [] = refl
  issued-run (start f d ∷ h) = ap suc (issued-run h)
  issued-run (terminate f ∷ h) = issued-run h

  -- If tokens do not repeat, the token store refines the history: the `n`-th token is worth its
  -- flow and dataset from its issue until its flow is terminated, and nothing before and after.
  pub lookup-run :
      ((j k : ℕ) → uuid j ≡ uuid k → j ≡ k)
      → (n : ℕ) (h : List Op) → lookup (uuid n) (run h) ≡ granted n h
  unfolding run
  lookup-run injective n [] = unfold lookup find in refl
  lookup-run injective n (start f d ∷ h) =
      rw (lookup-issue f d (uuid n) (run h), issued-run h)
        (ground (
          arith,
          eq_iff (uuid (starts h)) (uuid n),
          injective (starts h) n,
          lookup-run injective n h,
        ))
  lookup-run injective n (terminate f ∷ h) =
      lookup-revoke_flow f (uuid n) (run h) (run-HasNoRepeats h)
      ∙ ap (unless_flow f) (lookup-run injective n h)

  -- A text that is never made as a token is worth nothing, after any history.
  pub lookup-run_unknown :
      (token : String) → ((n : ℕ) → uuid n ≢ token) → (h : List Op) → lookup token (run h) ≡ none
  unfolding run
  lookup-run_unknown token never [] = unfold lookup find in refl
  lookup-run_unknown token never (start f d ∷ h) =
      rw (lookup-issue f d token (run h), eq_of_ne _ _ (never (run h).issued))
        (lookup-run_unknown token never h)
  lookup-run_unknown token never (terminate f ∷ h) =
      lookup-revoke_flow f token (run h) (run-HasNoRepeats h)
      ∙ ap (unless_flow f) (lookup-run_unknown token never h)
