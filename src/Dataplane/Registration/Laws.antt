-- ===== src/Dataplane/Registration/Laws.antt =====
-- The URL of a registration, and when a registration counts as done.
use Prim.Native.String.append
use Prim.Native.Char.{Char, code}
use text.Mathlib.TextEquality.{Char-path}
use text.Mathlib.TextLemmas.{cons-append, nil-append}
use ds_sql_dps_rs.Prelude.{
  String, ◌<>◌, ℕ, zero, suc, Bool, false, ◌≤◌, ◌<◌, ◌≡◌, refl, ap, sym, ◌∙◌, ok, Result-cases,
  ok-injective, Bool-cases, inl, inr, arith, ◌==◌, eq_iff, ◌&&◌, nat_eq, if◌then◌else◌, ◌↔◌,
}
use ds_sql_dps_rs.Dataplane.Registration.{
  DataPlaneRegistration, Put, HttpResponse, trim_end_slashes, registration_url, registration_json,
  register_with_control_plane,
}

trim_end_slashes-slash : (s : String) → trim_end_slashes (s <> "/") ≡ trim_end_slashes s
unfolding trim_end_slashes
trim_end_slashes-slash String.[] = refl
trim_end_slashes-slash (String.◌∷◌ c s) =
    rw (append.cons c s "/", trim_end_slashes, trim_end_slashes-slash s) refl

-- A number of slashes.
abbrev pub slashes : ℕ → String
slashes zero = ""
slashes (suc n) = "/" <> slashes n

abbrev pub ends_with_slash : String → Bool
ends_with_slash String.[] = false
ends_with_slash (String.◌∷◌ c s) = if s == "" then nat_eq (code c) b'/' else ends_with_slash s

slash-cons : (c : Char) (s : String) → code c ≡ b'/' → String.◌∷◌ c s ≡ "/" <> s
slash-cons c s e =
    ap (λ d. String.◌∷◌ d s) (Char-path c "/" e) ∙ sym (cons-append "/" "" s ∙ rw nil-append refl)

trim_end_slashes-slashes : (s : String) → (n : ℕ) × (s ≡ trim_end_slashes s <> slashes n)
unfolding trim_end_slashes
trim_end_slashes-slashes String.[] = (0, refl)
trim_end_slashes-slashes (String.◌∷◌ c s) =
    let (n, e) = trim_end_slashes-slashes s in
    elim (Bool-cases (nat_eq (code c) b'/' && trim_end_slashes s == "")) [
      | inl all ↦
          let slash : code c ≡ b'/' = ground (arith, all) in
          let empty : trim_end_slashes s ≡ "" =
            (eq_iff (trim_end_slashes s) "").0 (ground (arith, all)) in
          let rest : s ≡ slashes n =
            e ∙ (ap (λ t. t <> slashes n) empty ∙ nil-append (slashes n)) in
          (
            suc n,
            rw (trim_end_slashes, all)
                (slash-cons c s slash ∙ (ap (λ t. "/" <> t) rest ∙ sym (nil-append _))),
          )
      | inr some_left ↦ (
        n,
        rw (trim_end_slashes, some_left)
            (ap (λ t. String.◌∷◌ c t) e ∙ sym (cons-append c (trim_end_slashes s) (slashes n))),
      )
    ]

trim_end_slashes-ends_with_slash : (s : String) → ends_with_slash (trim_end_slashes s) ≡ false
unfolding trim_end_slashes
trim_end_slashes-ends_with_slash String.[] = refl
trim_end_slashes-ends_with_slash (String.◌∷◌ c s) =
    elim (Bool-cases (nat_eq (code c) b'/' && trim_end_slashes s == "")) [
      | inl all ↦ rw (trim_end_slashes, all)
      | inr some_left ↦
          let rest = trim_end_slashes-ends_with_slash s in
          rw (trim_end_slashes, some_left) (ground (arith, some_left, rest))
    ]

-- The URL is the base URL without the slashes at its end, of which there may be any number, and
-- the participant's path; one more slash at the end of the base URL makes no difference.
pub registration_url-slash :
    (base participant : String)
    → (registration_url (base <> "/") participant ≡ registration_url base participant)
      × (stem : String) × (n : ℕ) × (base ≡ stem <> slashes n)
      × (ends_with_slash stem ≡ false)
      × (registration_url base participant
          ≡ stem <> ("/v5beta/participants/" <> (participant <> "/dataplanes")))
unfolding registration_url
registration_url-slash base participant =
    let (n, e) = trim_end_slashes-slashes base in
    (
      rw (trim_end_slashes-slash base) refl,
      trim_end_slashes base,
      n,
      e,
      trim_end_slashes-ends_with_slash base,
      refl,
    )

-- A registration succeeds exactly if the control plane answers it, at the participant's URL and with
-- this body, with a status from 200 to 299.
pub register_ok :
    (put : Put) (base participant : String) (r : DataPlaneRegistration)
    → (register_with_control_plane put base participant r ≡ ok tt) ↔ (
        (response : HttpResponse) × (put (registration_url base participant) (registration_json r)
          ≡ ok response)
        × (200 ≤ response.status)
        × (response.status < 300))
unfolding register_with_control_plane
register_ok put base participant r =
    elim (Result-cases (put (registration_url base participant) (registration_json r))) [
      | inr (e, p) ↦ (
        λ h. absurd (ground (arith, p)),
        λ (response, q, low, high). absurd (ground (arith, p, q)),
      )
      | inl (response, p) ↦ (
        λ h. (response, p, ground (arith, p), ground (arith, p)),
        λ (answer, q, low, high).
            let same : answer ≡ response = ok-injective (sym q ∙ p) in
            ground (arith, p, same, low, high),
      )
    ]
