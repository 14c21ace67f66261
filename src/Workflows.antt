-- ===== src/Workflows.antt =====
-- backend/app/modules/workflows
pub mod Graph
pub mod Registry
pub mod Cycles
pub mod Validator
pub mod Models
pub mod Service
pub mod Router
