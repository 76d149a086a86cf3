-- ===== src/Telemetry.antt =====
-- Spans that become Prometheus metrics (server/fntracer.go, server/prom_zip_collector.go).
pub mod Texts
pub mod FnSpan
pub mod Collector
pub mod Labels
pub mod Registered
pub mod Examples
