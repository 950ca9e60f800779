-- ===== src/Analyze.antt =====
-- The reduce phase and the confidence of src/qfa/services/analyze.py.
pub mod Reduce
pub mod Judge
pub mod Phases
pub mod Hierarchical
pub mod SinglePass
pub mod Confidence
