-- ===== src/Correlation.antt =====
-- The correlation of records by candidate edges, of src/reconcileflow/correlation.
pub mod Assignment
pub mod Graph
pub mod Weights
pub mod Topology
pub mod Exact
