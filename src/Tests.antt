-- ===== src/Tests.antt =====
-- Tests on a concrete store, and the theorems at concrete inputs.
mod Memory
mod ConfigGraph
mod Dataplane
mod Startup
mod System
mod Offers
mod Deadline
mod Concurrent
mod Queries
mod UnitTests
mod Policy
mod Moments
mod Race
mod Revoked
mod Codecs
