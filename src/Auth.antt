-- ===== src/Auth.antt =====
-- backend/app/modules/auth: accounts, their one-time tokens, and sessions.
pub mod Models
pub mod Redis
pub mod Platform
pub mod OneTime
pub mod Schemas
pub mod Accounts
pub mod Memberships
pub mod Sessions
pub mod Refresh
pub mod Dependencies
pub mod Router
pub mod AccountRequests
