-- ===== src/Prelude/Decimal.antt =====
-- `usize::to_string`, and the number that a decimal text stands for.
use Prim.Native.Char.{Char, code}
use Prim.Native.Nat.{ℕ, zero, suc, ◌+◌, ◌-◌, ◌*◌, ◌/◌, ◌%◌, ◌<◌}
use Prim.Native.String.{String, ◌++◌ as ◌<>◌}
use mathlib.Core.Path.{◌≡◌, refl, ◌∙◌}
use mathlib.Core.Bool.{true, false, ◌&&◌}
use mathlib.Core.Logic.{inl, inr}
use mathlib.Core.Option.{Option, none, some}
use native.Mathlib.Omega.{arith}
use text.Mathlib.TextLemmas.{cons-append, nil-append, append-eq-nil_iff}
use ds_sql_dps_rs.Prelude.Tests.{◌==◌, eq_iff, eq_of_ne, ltb, leb, if◌then◌else◌, Bool-cases}

digit : ℕ → String
digit zero = "0"
digit (suc zero) = "1"
digit (suc (suc zero)) = "2"
digit (suc (suc (suc zero))) = "3"
digit (suc (suc (suc (suc zero)))) = "4"
digit (suc (suc (suc (suc (suc zero))))) = "5"
digit (suc (suc (suc (suc (suc (suc zero)))))) = "6"
digit (suc (suc (suc (suc (suc (suc (suc zero))))))) = "7"
digit (suc (suc (suc (suc (suc (suc (suc (suc zero)))))))) = "8"
digit _ = "9"

print : ℕ → ℕ → String
print zero n = digit n
print (suc f) n =
    let front = print f (n / 10) in if ltb n 10 then digit n else front <> digit (n % 10)

-- A number has fewer digits than its value plus one, which is the fuel.
unfoldable pub to_string : ℕ → String
unfolding print digit
to_string n = print n n

-- The digits, most significant first, onto the value of those before.
scan : ℕ → String → Option ℕ
scan acc String.[] = some acc
scan acc (String.◌∷◌ c s) =
    let d = code c in
    let rest = scan (acc * 10 + (d - 48)) s in if leb 48 d && leb d 57 then rest else none

unfoldable pub integer_value : String → Option ℕ
unfolding scan
integer_value String.[] = none
integer_value (String.◌∷◌ c s) = scan 0 (String.◌∷◌ c s)

to_string_runs : to_string 1207 ≡ "1207"
unfolding to_string
to_string_runs = refl

scan-digit : (acc d : ℕ) → d < 10 → scan acc (digit d) ≡ some (acc * 10 + d)
unfolding scan digit
scan-digit acc zero h = refl
scan-digit acc (suc zero) h = refl
scan-digit acc (suc (suc zero)) h = refl
scan-digit acc (suc (suc (suc zero))) h = refl
scan-digit acc (suc (suc (suc (suc zero)))) h = refl
scan-digit acc (suc (suc (suc (suc (suc zero))))) h = refl
scan-digit acc (suc (suc (suc (suc (suc (suc zero)))))) h = refl
scan-digit acc (suc (suc (suc (suc (suc (suc (suc zero))))))) h = refl
scan-digit acc (suc (suc (suc (suc (suc (suc (suc (suc zero)))))))) h = refl
scan-digit acc (suc (suc (suc (suc (suc (suc (suc (suc (suc zero))))))))) h = refl
scan-digit acc (suc (suc (suc (suc (suc (suc (suc (suc (suc (suc d)))))))))) h =
    absurd (omega arith)

digit-ne-nil : (d : ℕ) → (digit d == "") ≡ false
unfolding digit
digit-ne-nil zero = refl
digit-ne-nil (suc zero) = refl
digit-ne-nil (suc (suc zero)) = refl
digit-ne-nil (suc (suc (suc zero))) = refl
digit-ne-nil (suc (suc (suc (suc zero)))) = refl
digit-ne-nil (suc (suc (suc (suc (suc zero))))) = refl
digit-ne-nil (suc (suc (suc (suc (suc (suc zero)))))) = refl
digit-ne-nil (suc (suc (suc (suc (suc (suc (suc zero))))))) = refl
digit-ne-nil (suc (suc (suc (suc (suc (suc (suc (suc zero)))))))) = refl
digit-ne-nil _ = refl

scan-append :
    (s t : String) (acc : ℕ)
    → scan acc (s <> t) ≡ elim (scan acc s) [ none ↦ none | some a ↦ scan a t ]
unfolding scan
scan-append String.[] t acc = rw nil-append refl
scan-append (String.◌∷◌ c s) t acc =
    rw cons-append (ground (arith, scan-append s t (acc * 10 + (code c - 48))))

-- Enough fuel prints a text that reads back.
scan-print : (f n : ℕ) → n < f + 1 → scan 0 (print f n) ≡ some n
unfolding print
scan-print zero n h = scan-digit 0 n (omega arith) ∙ ground arith
scan-print (suc f) n h = elim (Bool-cases (ltb n 10)) [
  | inl small ↦ rw small (scan-digit 0 n (ground arith) ∙ ground arith)
  | inr large ↦
      rw (large, scan-append, scan-print f (n / 10) (ground arith))
        (scan-digit (n / 10) (n % 10) (omega arith) ∙ ground arith)
]

value_of_scan :
    (s : String) (n : ℕ) → (s == "") ≡ false → scan 0 s ≡ some n → integer_value s ≡ some n
unfolding integer_value
value_of_scan String.[] n h e = cc
value_of_scan (String.◌∷◌ c s) n h e = e

print-ne-nil : (f n : ℕ) → (print f n == "") ≡ false
unfolding print
print-ne-nil zero n = digit-ne-nil n
print-ne-nil (suc f) n = elim (Bool-cases (ltb n 10)) [
  | inl small ↦ rw small (digit-ne-nil n)
  | inr large ↦ rw large (
      eq_of_ne _ _ λ e. cc (
        digit-ne-nil (n % 10),
        (eq_iff (digit (n % 10)) "").1 ((append-eq-nil_iff {p = print f (n / 10)}).0 e).1,
      ))
]

-- Printing and reading back a number gives the number.
pub integer_value-to_string : (n : ℕ) → integer_value (to_string n) ≡ some n
unfolding to_string
integer_value-to_string n =
    value_of_scan (print n n) n (print-ne-nil n n) (scan-print n n (omega arith))

-- A number begins with a digit.
pub integer_value-digit :
    (c : Char) (s : String) (n : ℕ)
    → integer_value (String.◌∷◌ c s) ≡ some n
    → leb 48 (code c) ≡ true
unfolding integer_value scan
integer_value-digit c s n h = ground (arith, h)
