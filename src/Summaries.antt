-- ===== src/Summaries.antt =====
-- src/qfa/services/summarize.py and language.py: the summary of one record (Single) and of many (Bulk).
pub mod Language
pub mod Service
pub mod Single
pub mod Bulk
pub mod Scored
