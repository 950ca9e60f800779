-- ===== src/Trends.antt =====
-- src/qfa/services/coding_trends.py, with the table of src/qfa/domain/clustering_models.py: periods and labels of a record (Buckets),
-- the table (Table), what its cells count (Table.Counting) and its rendering.
pub mod Buckets
pub mod Table
