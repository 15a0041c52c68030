-- ===== src/Sparql/Text/Parsing.antt =====
-- What a text with an IRI put into it means.
use ds_sql_dps_rs.Prelude.{String, ◌<>◌, true, ◌≡◌, ap, ◌∙◌, List}
use ds_sql_dps_rs.Sparql.Text.{Token, in_iri, scan, start}
use ds_sql_dps_rs.Sparql.Text.Lexing.{is_iri_text, scan-append, scan-is_iri_text}
use text.Mathlib.TextLemmas.{nil-append}

-- A text that ends inside of an IRI, the IRI, and the text from its end on.
pub scan-with_iri :
    (front i back : String) (ts : List Token)
    → is_iri_text i ≡ true
    → scan start front ≡ record { tokens = ts; mode = in_iri "" }
    → scan start (front <> (i <> back)) ≡ scan (record { tokens = ts; mode = in_iri i }) back
scan-with_iri front i back ts h e =
    scan-append start front (i <> back)
    ∙ ap (λ l. scan l (i <> back)) e
    ∙ scan-append (record { tokens = ts; mode = in_iri "" }) i back
    ∙ ap (λ l. scan l back)
        (scan-is_iri_text ts "" i h
          ∙ ap (λ x. record { tokens = ts; mode = in_iri x }) (nil-append i))
