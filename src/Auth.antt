-- ===== src/Auth.antt =====
-- API keys and tenants: the models of src/qfa/domain/models.py, the adapters of src/qfa/adapters/db.py and env_auth.py, and
-- src/qfa/services/auth_orchestrator.py.
pub mod Keys
pub mod Database
pub mod Orchestrator
