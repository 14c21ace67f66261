-- ===== src/Workflows/Service/Invariant.antt =====
-- The version history of a workflow, under backend/app/modules/workflows/service.py.
mod History
pub mod Kept
pub mod Publication
unfoldable pub use History.*
