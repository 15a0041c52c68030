-- ===== src/Sparql/Text.antt =====
-- The text of a SPARQL query, as far as the program writes them: the tokens and the grammar of the
-- SPARQL recommendation for PREFIX, SELECT with a WHERE group of triples and an OPTIONAL group, and
-- ORDER BY. A text that uses anything else is left out, and nothing is said of it.
pub mod Lexing
pub mod Parsing
use Prim.Native.Char.{Char, code}
use ds_sql_dps_rs.Prelude.{
  String, ◌<>◌, ℕ, Bool, true, false, Option, none, some, List, [], ◌∷◌, ◌++◌, ◌==◌, ◌&&◌, ◌||◌,
  not, nat_eq, leb, ltb, if◌then◌else◌,
}
use ds_sql_dps_rs.Sparql.{Node, iri, var, TriplePattern, Query}

-- IRIREF, `{`, `}`, `;` and `.`, and the words: keywords, variables and prefixed names.
pub data Token : Type 0 where
  iri_ref : String → Token
  left_brace : Token
  right_brace : Token
  semicolon : Token
  full_stop : Token
  word : String → Token

pub data Mode : Type 0 where
  between : Mode
  in_comment : Mode
  in_iri : String → Mode
  in_word : String → Mode
  unread : Mode

-- The tokens so far, and what the next character belongs to.
pub record Lexer : Type 0 where
  pub tokens : List Token
  pub mode : Mode

abbrev pub snoc : String → Char → String
snoc s c = s <> String.◌∷◌ c ""

-- The characters of IRIREF: none up to the space, and none of `<>"{}|^\`` and the backslash.
unfoldable pub is_iri_char : ℕ → Bool
is_iri_char c =
    ltb 32 c
    && not (
        nat_eq c 60
        || (nat_eq c 62
            || (nat_eq c 34
                || (nat_eq c 123
                    || (nat_eq c 125
                        || (nat_eq c 124 || (nat_eq c 94 || (nat_eq c 96 || nat_eq c 92))))))))

unfoldable pub is_letter : ℕ → Bool
is_letter c = leb 97 c && leb c 122 || leb 65 c && leb c 90

-- Letters, digits, `_` and `:`.
unfoldable pub is_word_char : ℕ → Bool
unfolding is_letter
is_word_char c = is_letter c || (leb 48 c && leb c 57 || (nat_eq c 95 || nat_eq c 58))

unfoldable pub is_blank : ℕ → Bool
is_blank c = nat_eq c 32 || (nat_eq c 10 || (nat_eq c 13 || nat_eq c 9))

abbrev pub push : List Token → Token → Mode → Lexer
push ts t m = record { tokens = ts ++ (t ∷ []); mode = m }

unfoldable pub step : List Token → Mode → Char → Lexer
unfolding is_iri_char is_word_char is_blank
step ts between c =
    if is_blank (code c)
    then record { tokens = ts; mode = between }
    else if nat_eq (code c) b'<'
    then record { tokens = ts; mode = in_iri "" }
    else if nat_eq (code c) b'#'
    then record { tokens = ts; mode = in_comment }
    else if nat_eq (code c) b'{'
    then push ts left_brace between
    else if nat_eq (code c) b'}'
    then push ts right_brace between
    else if nat_eq (code c) b';'
    then push ts semicolon between
    else if nat_eq (code c) b'.'
    then push ts full_stop between
    else if is_letter (code c) || nat_eq (code c) b'?'
    then record { tokens = ts; mode = in_word (snoc "" c) }
    else record { tokens = ts; mode = unread }
step ts in_comment c = record {
  tokens = ts;
  mode = if nat_eq (code c) 10 || nat_eq (code c) 13 then between else in_comment;
}
step ts (in_iri s) c =
    if nat_eq (code c) b'>'
    then push ts (iri_ref s) between
    else record { tokens = ts; mode = if is_iri_char (code c) then in_iri (snoc s c) else unread }
step ts (in_word s) c =
    if is_blank (code c)
    then push ts (word s) between
    else record { tokens = ts; mode = if is_word_char (code c) then in_word (snoc s c) else unread }
step ts unread c = record { tokens = ts; mode = unread }

unfoldable pub scan : Lexer → String → Lexer
unfolding step
scan l String.[] = l
scan l (String.◌∷◌ c s) = scan (step l.tokens l.mode c) s

abbrev pub finish : List Token → Mode → Option (List Token)
finish ts between = some ts
finish ts in_comment = some ts
finish ts (in_word s) = some (ts ++ (word s ∷ []))
finish ts (in_iri s) = none
finish ts unread = none

abbrev pub start : Lexer
start = record { tokens = []; mode = between }

-- The declared prefixes with their namespaces.
abbrev pub Prefixes : Type 0
Prefixes = List (String × String)

unfoldable pub namespace : String → Prefixes → Option String
namespace p [] = none
namespace p ((q, ns) ∷ rest) = let later = namespace p rest in if q == p then some ns else later

-- A word before and after its first colon.
unfoldable pub split_colon : String → Option (String × String)
split_colon String.[] = none
split_colon (String.◌∷◌ c s) = elim (split_colon s) [
  | none ↦ if nat_eq (code c) b':' then some ("", s) else none
  | some (front, back) ↦
      if nat_eq (code c) b':' then some ("", s) else some (String.◌∷◌ c front, back)
]

-- A variable's name: `?`, and then no colon.
unfoldable pub variable : String → Option String
unfolding split_colon
variable String.[] = none
variable (String.◌∷◌ c s) = elim (split_colon s) [
  | some parts ↦ none
  | none ↦ if nat_eq (code c) b'?' && not (s == "") then some s else none
]

-- A prefixed name in full.
unfoldable pub full_name : Prefixes → String → Option String
unfolding namespace split_colon
full_name ps w = elim (split_colon w) [
  | none ↦ none
  | some (p, name) ↦ elim (namespace p ps) [ none ↦ none | some ns ↦ some (ns <> name) ]
]

unfoldable pub predicate_of : Prefixes → Token → Option String
unfolding full_name
predicate_of ps (iri_ref i) = some i
predicate_of ps (word w) = full_name ps w
predicate_of ps left_brace = none
predicate_of ps right_brace = none
predicate_of ps semicolon = none
predicate_of ps full_stop = none

abbrev pub as_iri : Option String → Option Node
as_iri none = none
as_iri (some i) = some (iri i)

unfoldable pub node_of : Prefixes → Token → Option Node
unfolding predicate_of variable
node_of ps (iri_ref i) = some (iri i)
node_of ps (word w) = elim (variable w) [ some v ↦ some (var v) | none ↦ as_iri (full_name ps w) ]
node_of ps left_brace = none
node_of ps right_brace = none
node_of ps semicolon = none
node_of ps full_stop = none
