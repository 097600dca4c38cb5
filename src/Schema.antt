-- ===== src/Schema.antt =====
-- The schema part: what a query is, which C++ names and types stand for its fields, and the C++ text
-- that is generated for it.
pub mod Analyzer
pub mod TypeMapper
pub mod Generator
mod Tests
