-- ===== src/Domain/Chunks.antt =====
-- `Chunk` of src/qfa/domain/chunk_models.py. That `records` is not empty, which the source declares
-- as a constraint of the field, is a predicate here.
use qualitative_feedback_ana.Prelude.{Bool, List, ◌<◌, length}
use qualitative_feedback_ana.Prelude.Int.{ℤ}
use qualitative_feedback_ana.Domain.Records.{AnalysisRecord}

pub record Chunk : Type 0 where
  pub label : ℤ
  pub is_uncategorised : Bool
  pub records : List AnalysisRecord

abbrev pub IsChunk : Chunk → Type 0
IsChunk c = 0 < length c.records
