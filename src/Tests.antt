-- ===== src/Tests.antt =====
-- Small inputs: what the definitions compute on them, and instances of the theorems.
mod SyncingTests
mod EmbeddingTests
mod DeanonymizeTests
mod SinglePassTests
mod RestoringTests
mod SensitivityTests
mod CitationsTests
mod BatchTests
mod Data
mod ClusteringTests
mod PromptsTests
mod CodingTests
mod AuthTests
mod AnalyzeTests
mod ExecutorTests
mod AnonymizerTests
mod LlmClientTests
mod TrackingTests
mod TrendsTests
mod HierarchicalTests
mod ApiTests
mod UsageTests
