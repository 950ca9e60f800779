-- ===== src/Prompts.antt =====
-- src/qfa/services/prompts.py: the tag envelope in which untrusted text reaches the model; and src/qfa/adapters/prompts.py.
pub mod Escape
pub mod Envelope
pub mod Syncing
