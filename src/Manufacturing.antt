-- ===== src/Manufacturing.antt =====
-- Manufacturing: the catalogue of stock sheets (internal/domain/manufacturing/nesting.go) and the
-- nesting of parts on them (internal/engine/manufacturing/nest.go).
pub mod Stock
pub mod Nesting
