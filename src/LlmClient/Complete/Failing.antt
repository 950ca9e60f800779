-- ===== src/LlmClient/Complete/Failing.antt =====
-- Which errors `LiteLLMClient._complete_impl` of src/qfa/adapters/llm_client.py raises.
use qualitative_feedback_ana.Prelude.{◌≡◌, []}
use qualitative_feedback_ana.LlmClient.Provider.{Reply, answered, refused, raised}
use qualitative_feedback_ana.LlmClient.Complete.{ResponseModel, base_model, string_type, neither}

-- The provider answers with a choice, or raises one of the four classes that LiteLLM documents.
abbrev pub IsDocumented : Reply → Type 0
IsDocumented (answered response) = ¬ (response.choices ≡ [])
IsDocumented (refused exc) = Unit
IsDocumented (raised exc) = ⊥

abbrev pub IsSupported {ℓ} : {Structured : Type ℓ} → ResponseModel Structured → Type 0
IsSupported (base_model _) = Unit
IsSupported (string_type _) = Unit
IsSupported neither = ⊥
