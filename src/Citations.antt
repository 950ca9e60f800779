-- ===== src/Citations.antt =====
-- src/qfa/services/record_links.py: the links of record ids (Links), the patterns (Lines) and the citation lines (Format).
pub mod Links
pub mod Lines
pub mod Format
