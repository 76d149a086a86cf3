-- ===== src/Persistence.antt =====
-- The journal of an actor (persistence/).
pub mod Provider
pub mod Mixin
pub mod Streaming
pub mod Examples
