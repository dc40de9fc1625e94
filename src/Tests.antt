-- ===== src/Tests.antt =====
-- Concrete inputs for the theorems, and small runs of the definitions.
pub mod Values
pub mod Quality
pub mod Country
pub mod Sources
pub mod Pipeline
pub mod Checks
pub mod Clients
pub mod Fetching
pub mod Background
