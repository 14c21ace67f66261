-- ===== src/Organizations.antt =====
-- backend/app/modules/organizations
pub mod Roles
pub mod Models
pub mod Members
pub mod Invitations
pub mod Orgs
pub mod Schemas
pub mod Slugs
pub mod ApiKeys
pub mod Dependencies
pub mod Router
