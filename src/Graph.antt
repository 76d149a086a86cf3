-- ===== src/Graph.antt =====
-- The completion graph (graph/graph.go, graph/stage.go, graph/stage_strategy.go).
pub mod Stage
pub mod Strategy
pub mod Engine
pub mod Validate
pub mod Progress
pub mod Replay
pub mod Examples
