-- ===== src/Dataplane.antt =====
-- The crate dataplane: the signaling handler, the public endpoint, tokens, configuration, the
-- registration with a control plane and the assembly (dataplane/src).
pub mod Tokens
pub mod Handler
pub mod Public
pub mod Flows
pub mod Served
pub mod Config
pub mod Registration
pub mod Build
pub mod System
pub mod Concurrent
pub mod Main
