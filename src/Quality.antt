-- ===== src/Quality.antt =====
-- internal/quality: the health state of a route, its score, and the choice of routes for bandwidth
-- probes.
pub mod State
pub mod Identity
pub mod Runtime
pub mod Bandwidth
pub mod Scoring
