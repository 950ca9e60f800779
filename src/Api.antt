-- ===== src/Api.antt =====
-- The HTTP layer: the responses to errors in src/qfa/api/app.py.
pub mod Responses
pub mod Handlers
pub mod Validation
