-- ===== src/Engineering/Stair.antt =====
-- internal/domain/engineering/stair.go: the parametric configuration of a staircase and its
-- validation. Lengths are float64 millimetres, an interface `Float`; counts are ints. A text field
-- with a fixed vocabulary is a data type with `unset` for "" and `unknown` for any other text.
pub mod Config
mod Examples
pub use Config.{
  FlightType, RailingSide, TurnDirection, TurnKind, SpiralDirection, StairConfiguration, StairError,
}
