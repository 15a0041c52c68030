-- ===== src/Dataplane/Tokens/Revoked.antt =====
-- dataplane/src/tokens.rs: a token that was revoked stays so.
use ds_sql_dps_rs.Prelude.{
  String, ℕ, ◌≤◌, ◌<◌, ◌≡◌, none, some, List, [], ◌∷◌, ◌++◌, eq_iff, arith, Option-cases, inl, inr,
}
use ds_sql_dps_rs.Dataplane.Tokens.{TokenRecord}
use ds_sql_dps_rs.Dataplane.Tokens.Laws.{Op, start, terminate, starts, granted}

-- A token that is worth something has been issued.
granted-lt : (n : ℕ) (entry : TokenRecord) (h : List Op) → granted n h ≡ some entry → n < starts h
granted-lt n entry [] e = absurd (ground (arith, e))
granted-lt n entry (start f d ∷ h) e = ground (arith, granted-lt n entry h)
granted-lt n entry (terminate f ∷ h) e = elim (Option-cases (granted n h)) [
  | inl p ↦ absurd (ground (arith, e, p))
  | inr (old, p) ↦ granted-lt n old h p
]

starts-append : (later h : List Op) → starts h ≤ starts (later ++ h)
starts-append [] h = omega arith
starts-append (start f d ∷ later) h = let rest = starts-append later h in omega (arith, rest)
starts-append (terminate f ∷ later) h = starts-append later h

-- A token that was issued and is worth nothing is never worth anything again.
gone_stays :
    (n : ℕ) (later h : List Op) → n < starts h → granted n h ≡ none → granted n (later ++ h) ≡ none
gone_stays n [] h issued gone = gone
gone_stays n (start f d ∷ later) h issued gone =
    let more = starts-append later h in
    let rest = gone_stays n later h issued gone in ground (arith, more, rest)
gone_stays n (terminate f ∷ later) h issued gone = rw (gone_stays n later h issued gone)

-- The tokens of a flow are worth nothing after its termination, whatever happens later.
pub granted-terminate :
    (n : ℕ) (f : String) (entry : TokenRecord) (later h : List Op)
    → granted n h ≡ some entry
    → entry.flow_id ≡ f
    → granted n (later ++ (terminate f ∷ h)) ≡ none
granted-terminate n f entry later h e same =
    gone_stays n later (terminate f ∷ h) (granted-lt n entry h e)
      (rw (e, (eq_iff entry.flow_id f).1 same))
