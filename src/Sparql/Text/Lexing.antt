-- ===== src/Sparql/Text/Lexing.antt =====
-- How a text with an IRI put into it is cut into tokens.
use Prim.Native.Char.{Char, code}
use ds_sql_dps_rs.Prelude.{
  String, ◌<>◌, ℕ, Bool, true, false, ◌≡◌, refl, ap, ◌∙◌, List, ◌&&◌, nat_eq, arith,
}
use text.Mathlib.TextLemmas.{cons-append, nil-append, append-nil, append_assoc}
use ds_sql_dps_rs.Sparql.Text.{Token, Lexer, in_iri, is_iri_char, step, scan, snoc}

-- A text of characters that an IRI can have.
abbrev pub is_iri_text : String → Bool
is_iri_text String.[] = true
is_iri_text (String.◌∷◌ c s) = is_iri_char (code c) && is_iri_text s

pub scan-append : (l : Lexer) (s t : String) → scan l (s <> t) ≡ scan (scan l s) t
unfolding scan
scan-append l String.[] t = rw nil-append refl
scan-append l (String.◌∷◌ c s) t = rw cons-append (scan-append (step l.tokens l.mode c) s t)

snoc-append : (front s : String) (c : Char) → snoc front c <> s ≡ front <> String.◌∷◌ c s
snoc-append front s c = append_assoc front (String.◌∷◌ c "") s ∙ rw (cons-append, nil-append)

is_iri_char-ne : (n : ℕ) → is_iri_char n ≡ true → nat_eq n b'>' ≡ false
unfolding is_iri_char
is_iri_char-ne n h = ground (arith, h)

step-in_iri :
    (ts : List Token) (front : String) (c : Char)
    → is_iri_char (code c) ≡ true
    → step ts (in_iri front) c ≡ record { tokens = ts; mode = in_iri (snoc front c) }
unfolding step
step-in_iri ts front c h = rw (h, is_iri_char-ne (code c) h)

-- Such a text is read whole into an IRI.
pub scan-is_iri_text :
    (ts : List Token) (front s : String)
    → is_iri_text s ≡ true
    → scan (record { tokens = ts; mode = in_iri front }) s
      ≡ record { tokens = ts; mode = in_iri (front <> s) }
unfolding scan
scan-is_iri_text ts front String.[] h = rw append-nil refl
scan-is_iri_text ts front (String.◌∷◌ c s) h = rw (step-in_iri ts front c (ground (arith, h))) (
    scan-is_iri_text ts (snoc front c) s (ground (arith, h))
    ∙ ap (λ x. record { tokens = ts; mode = in_iri x }) (snoc-append front s c))
