-- ===== src/Format.antt =====
-- internal/format: what is served as plain links.
pub mod Links
pub mod Vmess
pub mod Output
