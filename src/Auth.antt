-- ===== src/Auth.antt =====
-- api/auth: organizations, their members and invites, and sessions.
pub mod Types
pub mod Management
pub mod Membership
pub mod Invites
pub mod Organizations
pub mod Sessions
pub mod MagicLinks
mod Examples
mod SignInExamples
