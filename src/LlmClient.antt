-- ===== src/LlmClient.antt =====
-- src/qfa/adapters/llm_client.py, by child. LiteLLM and tenacity are third parties: what they return, and when, are arguments.
pub mod Schema
pub mod Provider
pub mod Injection
pub mod Retry
pub mod Complete
