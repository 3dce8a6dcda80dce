-- ===== src/Data.antt =====
-- api/data: JSON requests become SQL over a database's cached schema and its access policies.
pub mod Text
pub mod Schema
pub mod Filter
pub mod Clean
pub mod Where
pub mod Policy
pub mod Writes
pub mod Relation
pub mod Aggregation
pub mod Columns
pub mod Select
pub mod CustomJoin
pub mod Reads
pub mod Batch
pub mod Migration
mod Examples
mod SelectExamples
mod StoreExamples
