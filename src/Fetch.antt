-- ===== src/Fetch.antt =====
-- internal/fetch: what is fetched from the subscription sources, and what is kept of it.
pub mod Sources
pub mod Decode
