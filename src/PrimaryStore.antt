-- ===== src/PrimaryStore.antt =====
-- api/primarystore: the definitions, policies and migrations that all databases share.
pub mod Policies
pub mod Migrations
pub mod Targets
