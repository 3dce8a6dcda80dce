-- ===== src/Definitions.antt =====
-- api/definitions: access and provision policies.
pub mod Types
pub mod Compiler
mod Examples
