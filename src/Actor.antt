-- ===== src/Actor.antt =====
-- The actor that owns a flow's graph (actor/graph.go).
pub mod State
pub mod Updates
pub mod Commands
pub mod Supervisor
pub mod Executor
pub mod Api
pub mod Strategy
pub mod Examples
