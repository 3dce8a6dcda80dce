-- ===== src/Tools.antt =====
-- api/tools: identifiers, and the vocabulary of errors (in Result.antt).
pub mod Validation
