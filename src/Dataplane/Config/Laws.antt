-- ===== src/Dataplane/Config/Laws.antt =====
-- The configuration that the environment can give.
use mathlib.Core.Option.{some_inj}
use ds_sql_dps_rs.Prelude.{
  String, ℕ, ◌^◌, ◌<◌, ◌≡◌, subst, sym, ap, ◌∙◌, ◌↔◌, Option, none, some, Option-cases, inl, inr,
  arith,
}
use ds_sql_dps_rs.Prelude.Decimal.{integer_value}
use ds_sql_dps_rs.Dataplane.Config.{
  Config, Environment, env_or, parse_u16, from_env, bounded, strip_plus,
}

-- A decimal number below 2^16, after at most one `+`.
abbrev pub IsPort : String → ℕ → Type 0
IsPort s n = (integer_value (strip_plus s) ≡ some n) × (n < 2 ^ 16)

bounded_iff : (o : Option ℕ) (n : ℕ) → (bounded o ≡ some n) ↔ ((o ≡ some n) × (n < 2 ^ 16))
bounded_iff none n = (λ h. absurd (ground (arith)), λ h. absurd (ground (arith, h)))
bounded_iff (some m) n = (λ h. (ground (arith), ground (arith)), λ h. ground (arith, h))

parse_u16_iff : (s : String) (n : ℕ) → (parse_u16 s ≡ some n) ↔ IsPort s n
unfolding parse_u16
parse_u16_iff s n = bounded_iff (integer_value (strip_plus s)) n

abbrev HasPorts : Environment → Option Config → Type 0
HasPorts env none = Unit
HasPorts env (some c) =
    (parse_u16 (env_or env "PUBLIC_PORT" "9192") ≡ some c.public_port)
    × (parse_u16 (env_or env "SIGNALING_PORT" "9191") ≡ some c.signaling_port)

from_env-HasPorts : (env : Environment) → HasPorts env (from_env env)
unfolding from_env
from_env-HasPorts env = elim (Option-cases (parse_u16 (env_or env "PUBLIC_PORT" "9192"))) [
  | inl p ↦ rw (p, HasPorts) tt
  | inr (port, p) ↦ elim (Option-cases (parse_u16 (env_or env "SIGNALING_PORT" "9191"))) [
    | inl q ↦ rw (p, q, HasPorts) tt
    | inr (signaling, q) ↦ rw (p, q, HasPorts) (p, q)
  ]
]

abbrev IsGiven : Option Config → Type 0
IsGiven none = ⊥
IsGiven (some c) = Unit

from_env-IsGiven :
    (env : Environment) (m n : ℕ)
    → parse_u16 (env_or env "PUBLIC_PORT" "9192") ≡ some m
    → parse_u16 (env_or env "SIGNALING_PORT" "9191") ≡ some n
    → IsGiven (from_env env)
unfolding from_env
from_env-IsGiven env m n p q = rw (p, q, IsGiven) tt

from_env-some :
    (env : Environment) (m n : ℕ)
    → parse_u16 (env_or env "PUBLIC_PORT" "9192") ≡ some m
    → parse_u16 (env_or env "SIGNALING_PORT" "9191") ≡ some n
    → (c : Config) × (from_env env ≡ some c)
from_env-some env m n p q = elim (Option-cases (from_env env)) [
  | inl e ↦ absurd (subst IsGiven e (from_env-IsGiven env m n p q))
  | inr (c, e) ↦ (c, e)
]

-- The process gets a configuration exactly if the variables of both ports, or else their standard
-- texts, are decimal numbers below 2^16, after at most one `+`; and these are its ports.
pub from_env-ports :
    (env : Environment) (m n : ℕ)
    → ((c : Config) × (from_env env ≡ some c) × (c.public_port ≡ m) × (c.signaling_port ≡ n))
      ↔ (IsPort (env_or env "PUBLIC_PORT" "9192") m × IsPort (env_or env "SIGNALING_PORT" "9191") n)
from_env-ports env m n = (
  λ (c, e, p, q).
      let ports = subst (HasPorts env) e (from_env-HasPorts env) in
      (
        (parse_u16_iff (env_or env "PUBLIC_PORT" "9192") m).0 (ports.0 ∙ ap some p),
        (parse_u16_iff (env_or env "SIGNALING_PORT" "9191") n).0 (ports.1 ∙ ap some q),
      ),
  λ (r, s).
      let p = (parse_u16_iff (env_or env "PUBLIC_PORT" "9192") m).1 r in
      let q = (parse_u16_iff (env_or env "SIGNALING_PORT" "9191") n).1 s in
      let (c, e) = from_env-some env m n p q in
      let ports = subst (HasPorts env) e (from_env-HasPorts env) in
      (c, e, some_inj.0 (sym ports.0 ∙ p), some_inj.0 (sym ports.1 ∙ q)),
)
