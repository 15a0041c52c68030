-- ===== src/Sparql/Grammar.antt =====
-- The grammar of the queries that the program writes, over their tokens.
use ds_sql_dps_rs.Prelude.{
  String, Bool, true, false, Option, none, some, List, [], ◌∷◌, ◌==◌, if◌then◌else◌,
}
use ds_sql_dps_rs.Sparql.{Node, TriplePattern, Query}
use ds_sql_dps_rs.Sparql.Text.{
  Token, iri_ref, left_brace, right_brace, semicolon, full_stop, word, Prefixes, split_colon,
  variable, predicate_of, node_of, start, scan, finish,
}

-- What stands next in a group of triples.
pub data Stage : Type 0 where
  at_subject : Stage
  at_predicate : Node → Stage
  at_object : Node → String → Stage
  after_object : Node → Stage

abbrev is_keyword : String → Token → Bool
is_keyword k (word w) = w == k
is_keyword k (iri_ref i) = false
is_keyword k left_brace = false
is_keyword k right_brace = false
is_keyword k semicolon = false
is_keyword k full_stop = false

-- Where the triples of a group end.
abbrev is_end : Token → Bool
is_end right_brace = true
is_end (word w) = w == "OPTIONAL"
is_end (iri_ref i) = false
is_end left_brace = false
is_end semicolon = false
is_end full_stop = false

abbrev Group : Type 0
Group = Option (List TriplePattern × List Token)

abbrev with_triple : Node → String → Node → Group → Group
with_triple s p o none = none
with_triple s p o (some (ts, rest)) =
    some (record { subject = s; predicate = p; object = o } ∷ ts, rest)

-- The triples of a group, and the tokens from their end on.
unfoldable pub triples : Prefixes → Stage → List Token → Group
unfolding node_of
triples ps st [] = none
triples ps at_subject (t ∷ rest) =
    if is_end t
    then some ([], t ∷ rest)
    else (elim (node_of ps t) [ none ↦ none | some s ↦ triples ps (at_predicate s) rest ])
triples ps (at_predicate s) (t ∷ rest) = elim (predicate_of ps t) [
  | none ↦ none
  | some p ↦ triples ps (at_object s p) rest
]
triples ps (at_object s p) (t ∷ rest) = elim (node_of ps t) [
  | none ↦ none
  | some o ↦ with_triple s p o (triples ps (after_object s) rest)
]
triples ps (after_object s) (semicolon ∷ rest) = triples ps (at_predicate s) rest
triples ps (after_object s) (full_stop ∷ rest) = triples ps at_subject rest
triples ps (after_object s) (right_brace ∷ rest) = some ([], right_brace ∷ rest)
triples ps (after_object s) (word w ∷ rest) =
    if w == "OPTIONAL" then some ([], word w ∷ rest) else none
triples ps (after_object s) (iri_ref i ∷ rest) = none
triples ps (after_object s) (left_brace ∷ rest) = none

-- Variables, and the tokens after them.
unfoldable pub variables : List Token → List String × List Token
unfolding variable
variables (word w ∷ rest) = elim (variable w) [
  | none ↦ ([], word w ∷ rest)
  | some v ↦ (v ∷ (variables rest).0, (variables rest).1)
]
variables [] = ([], [])
variables (iri_ref i ∷ rest) = ([], iri_ref i ∷ rest)
variables (left_brace ∷ rest) = ([], left_brace ∷ rest)
variables (right_brace ∷ rest) = ([], right_brace ∷ rest)
variables (semicolon ∷ rest) = ([], semicolon ∷ rest)
variables (full_stop ∷ rest) = ([], full_stop ∷ rest)

abbrev whole :
    List String → List TriplePattern → List TriplePattern → List String × List Token → Option Query
whole vs ts os (keys, []) =
    some (record { select = vs; pattern = ts; optional = os; order_by = keys })
whole vs ts os (keys, t ∷ rest) = none

-- The order, from behind the `}` of WHERE on.
abbrev order : List String → List TriplePattern → List TriplePattern → List Token → Option Query
order vs ts os [] = whole vs ts os ([], [])
order vs ts os (o ∷ []) = none
order vs ts os (o ∷ b ∷ []) = none
order vs ts os (o ∷ b ∷ v ∷ rest) =
    if is_keyword "ORDER" o
    then (if is_keyword "BY" b then whole vs ts os (variables (v ∷ rest)) else none)
    else none

abbrev closed : List String → List TriplePattern → Group → Option Query
closed vs ts none = none
closed vs ts (some (os, right_brace ∷ right_brace ∷ rest)) = order vs ts os rest
closed vs ts (some (os, _)) = none

-- The end of the WHERE group, with an OPTIONAL group before it or not.
abbrev grouped : List String → Prefixes → Group → Option Query
grouped vs ps none = none
grouped vs ps (some (ts, [])) = none
grouped vs ps (some (ts, right_brace ∷ rest)) = order vs ts [] rest
grouped vs ps (some (ts, word w ∷ left_brace ∷ rest)) = closed vs ts (triples ps at_subject rest)
grouped vs ps (some (ts, _ ∷ _)) = none

abbrev selected : Prefixes → List String × List Token → Option Query
selected ps ([], rest) = none
selected ps (v ∷ vs, w ∷ left_brace ∷ rest) =
    if is_keyword "WHERE" w then grouped (v ∷ vs) ps (triples ps at_subject rest) else none
selected ps (v ∷ vs, _) = none

abbrev add_prefix : Option (String × String) → String → Prefixes → Option Prefixes
add_prefix none i ps = none
add_prefix (some (p, name)) i ps = if name == "" then some ((p, i) ∷ ps) else none

-- The prologue, and the query behind it.
unfoldable pub query : Prefixes → List Token → Option Query
unfolding triples variables split_colon
query ps (word k ∷ word p ∷ iri_ref i ∷ rest) = elim (add_prefix (split_colon p) i ps) [
  | none ↦ none
  | some ps' ↦ if k == "PREFIX" then query ps' rest else none
]
query ps (word k ∷ rest) = if k == "SELECT" then selected ps (variables rest) else none
query ps _ = none

-- Every IRI that is written in full.
abbrev pub iri_refs : List Token → List String
iri_refs [] = []
iri_refs (iri_ref i ∷ ts) = i ∷ iri_refs ts
iri_refs (left_brace ∷ ts) = iri_refs ts
iri_refs (right_brace ∷ ts) = iri_refs ts
iri_refs (semicolon ∷ ts) = iri_refs ts
iri_refs (full_stop ∷ ts) = iri_refs ts
iri_refs (word w ∷ ts) = iri_refs ts

-- A query, with the IRIs that its text writes in full.
pub record Parsed : Type 0 where
  pub query : Query
  pub refs : List String

abbrev pub with_refs : List Token → Option Query → Option Parsed
with_refs ts none = none
with_refs ts (some q) = some (record { query = q; refs = iri_refs ts })

abbrev pub parsed : Option (List Token) → Option Parsed
parsed none = none
parsed (some ts) = with_refs ts (query [] ts)

-- The meaning of a text.
unfoldable pub parse : String → Option Parsed
unfolding query scan
parse text = let l = scan start text in parsed (finish l.tokens l.mode)
