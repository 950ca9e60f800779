-- ===== src/Clustering.antt =====
-- src/qfa/services/clustering.py: embedding vectors to budget-sized chunks of records.
pub mod Split
pub mod Dates
pub mod Budget
pub mod Labels
pub mod Records
