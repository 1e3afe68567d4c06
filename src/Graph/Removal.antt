-- ===== src/Graph/Removal.antt =====
-- Graphs whose updates include `RemoveEdge` and `RemoveNode` of internal/engine/graph/graph.go.
pub mod Maps
pub mod Keyed
pub mod Edges
pub mod Nodes
pub mod Updates
mod Examples
