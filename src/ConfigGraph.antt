-- ===== src/ConfigGraph.antt =====
-- The crate config-graph: a file offer as RDF in an embedded store (config-graph/src).
pub mod Vocab
pub mod Offer
pub mod Store
pub mod Queries
pub mod Seed
pub mod Json
pub mod Policy
pub mod ReadBack
pub mod RoundTrip
pub mod Ids
pub mod Offers
pub mod UnitTests
