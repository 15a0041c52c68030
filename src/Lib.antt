-- ===== src/Lib.antt =====
-- ds-sql-dps-rs: a data plane that offers files under a usage policy. The configuration graph (an RDF
-- store) holds each file offer, the signaling handler hands out a bearer token when a flow starts, and
-- the public endpoint serves a file to a request with a live token if the policy engine allows the
-- offer's policy at that moment.
--
-- The parts, with the files that model them:
-- - config-graph/src/vocab.rs, offer.rs: ConfigGraph/Vocab.antt, ConfigGraph/Offer.antt.
-- - config-graph/src/store.rs: ConfigGraph/Store.antt has the errors, the IRIs, `select`, `file_path`
--   and `media_type`; ConfigGraph/Seed.antt has `seed_offer`, cut into the quads of the header, of a
--   permission and of a constraint and the final loop of inserts; ConfigGraph/Policy.antt has
--   `policy_jsonld` with the loop that groups rows by permission, and ConfigGraph/Policy/Shape.antt
--   the form of its documents; ConfigGraph/UnitTests.antt has the unit tests.
-- - contreforts-connector/src/lib.rs: Contreforts.antt, and its unit test in
--   Contreforts/UnitTests.antt.
-- - dataplane/src/tokens.rs: Dataplane/Tokens.antt. dataplane/src/handler.rs: Dataplane/Handler.antt.
--   dataplane/src/public.rs: Dataplane/Public.antt. dataplane/src/config.rs: Dataplane/Config.antt.
--   dataplane/src/registration.rs: Dataplane/Registration.antt. dataplane/src/lib.rs:
--   Dataplane/Build.antt has `build`, and Dataplane/Main.antt `serve` and dataplane/src/main.rs.
-- - What several parts do together is in Dataplane/Flows.antt and Dataplane/Served.antt, and of the
--   whole data plane, built and called in any order, in Dataplane/System.antt: its children have the
--   invariant (Good, Keeps), the answers (Answers, Laws), the way from a start to an answer (Starts),
--   the deadline of the configuration (Deadline) and terminations (Revoked).
-- - Dataplane/Concurrent.antt has the same hooks and requests as tasks that take turns, step by step;
--   its children compare them, outside TCK mode, with whole calls in some order, and
--   Dataplane/Concurrent/Moments.antt says, in either mode, at which moments a task found out what it
--   goes by; Dataplane/Concurrent/Kept.antt is about the offers that the graph has had before, while
--   starts in TCK mode insert others. Tests/Race.antt has two such starts that seed one dataset twice.
-- - Dataplane/Config/RoundTrip.antt and Dataplane/Registration/RoundTrip.antt write a configuration and
--   a registration out and read them back.
-- - ConfigGraph/RoundTrip.antt has the histories of a graph and what is read back; ConfigGraph/Ids.antt
--   and ConfigGraph/Offers.antt look at it as a map from dataset ids to offers, and so does
--   Contreforts/Offers.antt; ConfigGraph/RoundTrip/Absent.antt is about datasets that were never
--   seeded, ConfigGraph/Seed/Count.antt about the number of quads, ConfigGraph/RoundTrip/Kept.antt
--   about offers while the quads of others are inserted one by one, and
--   ConfigGraph/Seed/Errors.antt about failures of `seed_offer`.
-- Prelude.antt, Rdf.antt, Sparql.antt and Oxigraph.antt are shared: lists, results and decimal numbers,
-- RDF terms and quads, the meaning of the SPARQL that the program writes, and the store's interface.
-- Sparql/Text.antt cuts a query text into tokens, Sparql/Grammar.antt parses them, and
-- ConfigGraph/Queries.antt says what the texts of store.rs mean, whatever IRI is put in. A text is put
-- in unescaped, as in the source: Tests/Queries.antt has a dataset id that changes its query.
-- Tests.antt has a concrete store, a concrete policy engine, and the theorems at concrete inputs.
--
-- State is passed explicitly. `ConfigGraph` is the oxigraph store with the number of blank nodes made
-- so far; `TokenStore` is the token map with the number of tokens made so far; `World` is what the
-- handler and the public endpoint share. An operation of the token store holds its lock, so it is one
-- step. In Dataplane/System.antt the calls come one after the other; in Dataplane/Concurrent.antt the
-- steps of many take turns by a schedule. The code has no loop that needs fuel: all recursion is on
-- lists.
--
-- Parameters, with what is assumed of them:
-- - oxigraph (`Oxigraph`): its store, the check of IRIs and the supply of blank nodes. `IsInMemory`
--   states its documented behaviour: a store is a set of quads, blank nodes are new, a valid IRI has
--   only characters that an IRI may have between `<` and `>`, and a query text of the grammar that
--   writes valid IRIs answers its solutions in an order that ORDER BY allows. The default graph is
--   left out. `IsDatasetId`: the IRIs made from a dataset id are valid. `IsApart`: the IRIs of two
--   datasets differ. `IsVocabulary`: the IRIs and the namespaces of the vocabulary are valid.
-- - The policy engine (`Engine`), the clock, the file system and the check of header values
--   (`Surroundings`): nothing is assumed, except that `ReadsDeadlines` is an engine that takes an ODRL
--   offer to use until a deadline, and allows it by an order of moments.
-- - The HTTP client, sockets and the signaling SDK (`Put`, `Startup`): nothing is assumed, except where
--   a theorem says that they work.
-- - UUIDs: `uuid n` is the n-th one; where a theorem needs that they do not repeat, it says so.
-- JSON objects are lists of fields, which ConfigGraph/Json/Access.antt reads; code that panics
-- (Prelude/Panics.antt) returns the message as an error. A permission object under construction is the
-- record `Entry`.
--
-- Not modelled: SPARQL beyond the constructs of the program's queries, the servers that `serve` runs
-- (what ends first is a parameter), logging except for what `build` and `main` report, poisoned locks,
-- the extraction of the bearer header by axum, and the vendored and third-party crates.
pub mod Prelude
pub mod Rdf
pub mod Sparql
pub mod Oxigraph
pub mod ConfigGraph
pub mod Contreforts
pub mod Dataplane
pub mod Tests
