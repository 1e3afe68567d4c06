-- ===== src/Pricing.antt =====
-- The pricing platform: internal/domain/pricing (money, rates, the price breakdown) and
-- internal/engine/pricing (the calculation).
pub mod Money
pub mod Breakdown
pub mod Engine
pub mod Extended
mod Examples
