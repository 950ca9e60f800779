-- ===== src/Domain.antt =====
-- src/qfa/domain: the values that the services and adapters exchange.
pub mod Records
pub mod Chunks
pub mod Errors
pub mod Gather
