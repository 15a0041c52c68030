-- ===== src/Prelude/Panics.antt =====
-- Code that panics: a value, or the message of the panic as the error.
use Prim.Native.String.{String}
use mathlib.Core.Bool.{Bool, true, false}
use mathlib.Core.Option.{Option, none, some}
use ds_sql_dps_rs.Prelude.Results.{Result, ok, err}

-- `Result::expect`
abbrev pub expect {ℓ κ} : {E : Type ℓ} {A : Type κ} → String → Result E A → Result String A
expect message (ok a) = ok a
expect message (err e) = err message

-- `Result::expect_err`
abbrev pub expect_err {ℓ κ} : {E : Type ℓ} {A : Type κ} → String → Result E A → Result String E
expect_err message (ok a) = err message
expect_err message (err e) = ok e

-- `Option::expect`
abbrev pub expect_some {ℓ} : {A : Type ℓ} → String → Option A → Result String A
expect_some message none = err message
expect_some message (some a) = ok a

-- `assert!`
abbrev pub assert : String → Bool → Result String (Unit {0})
assert message true = ok tt
assert message false = err message
