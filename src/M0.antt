-- ===== src/M0.antt =====
-- The decision rules of a run, of src/reconcileflow/m0: its stability and its attribution.
pub mod Stability
pub mod Attribution
pub mod Verdict
pub mod Borderline
pub mod Stable
