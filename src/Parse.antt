-- ===== src/Parse.antt =====
-- internal/parse: share links become proxy records.
pub mod Record
pub mod Query
pub mod Lines
pub mod Names
pub mod Params
pub mod Schemes
