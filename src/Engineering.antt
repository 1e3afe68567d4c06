-- ===== src/Engineering.antt =====
-- internal/domain/engineering: the engineering domain model.
pub mod Revision
pub mod Parameter
pub mod Object
pub mod Project
pub mod Stair
mod Examples
