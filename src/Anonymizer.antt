-- ===== src/Anonymizer.antt =====
-- src/qfa/adapters/presidio_anonymizer.py: the placeholder space, the passes over a batch and their merge, and the restoring. Detection belongs to Presidio.
pub mod Placeholders
pub mod Spans
pub mod Chunking
pub mod Passes
pub mod Deanonymize
