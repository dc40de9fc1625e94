-- ===== src/Country.antt =====
-- internal/country: the country that a route's exit is seen from, and the filter by country.
pub mod Codes
pub mod Evidence
pub mod Filter
