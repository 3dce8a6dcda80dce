-- ===== src/Platform.antt =====
-- api/platform: definitions' schemas, their differences and the migrations between them.
pub mod Schema
pub mod Sql
pub mod Plan
pub mod Diff
mod Examples
