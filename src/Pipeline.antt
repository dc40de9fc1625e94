-- ===== src/Pipeline.antt =====
-- internal/pipeline: attribution of records to sources, and the published data.
pub mod Attribution
pub mod Background
pub mod Cached
pub mod Publish
pub mod Fetching
pub mod Gateway
pub mod Probes
