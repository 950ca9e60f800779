-- ===== src/Tests/UsageTests.antt =====
-- Instances of the theorems on src/qfa/adapters/usage_repository.py: a tenant with two operations, one of them without calls.
use qualitative_feedback_ana.Prelude.{
  ℕ, ◌≡◌, refl, none, some, List, [], ◌∷◌, Option, Text, codes, map, ◌⊎◌, if◌then◌else◌, ◌==◌,
  text_leb, ltb,
}
use qualitative_feedback_ana.Prelude.Sort.{IsSorted}
use qualitative_feedback_ana.Tracking.Usage.{
  StatsEntry, UsageMetrics, UsageBlock, no_distribution, tenant_block, all_usage_by_tenant,
}
use qualitative_feedback_ana.Tracking.Usage.Blocks.{Lists, IsMisnamed, tenant_block-IsSorted}
use qualitative_feedback_ana.Domain.Errors.{ok, err, ◌>>=◌, value_error}

abbrev metrics : (calls cost : ℕ) → UsageMetrics
metrics calls cost = record {
  total_calls = calls;
  failed_calls = 0;
  total_cost_usd = cost;
  call_duration = no_distribution;
  input_tokens = no_distribution;
  output_tokens = no_distribution;
}

abbrev entry : (tenant_id operation : Option Text) (calls cost : ℕ) → StatsEntry
entry tenant_id operation calls cost = record {
  tenant_id = tenant_id;
  operation = operation;
  metrics = metrics calls cost;
}

abbrev invocations : List StatsEntry
invocations =
    entry (some (codes "t1")) (some (codes "analyze")) 2 5
    ∷ entry (some (codes "t1")) (some (codes "summarize")) 0 0
    ∷ entry (some (codes "t1")) (some (codes "assign_codes")) 4 9
    ∷ entry (some (codes "t1")) none 6 14
    ∷ entry none none 6 14
    ∷ []

abbrev part_names : UsageBlock → List Text
part_names block = map (λ part. part.name) block.parts

abbrev block_names : List UsageBlock → List (Option Text)
block_names blocks = map (λ block. block.name) blocks

dearest_first :
    (tenant_block invocations invocations (some (codes "t1")) >>= λ block. ok (part_names block))
    ≡ ok (codes "assign_codes" ∷ codes "analyze" ∷ [])
unfolding tenant_block
dearest_first = refl

misnamed :
    tenant_block (entry none (some (codes "review")) 1 1 ∷ invocations) invocations none
    ≡ err value_error
unfolding tenant_block
misnamed = refl

total_last :
    (all_usage_by_tenant invocations invocations >>= λ blocks. ok (block_names blocks))
    ≡ ok (some (codes "t1") ∷ none ∷ [])
unfolding all_usage_by_tenant
total_last = refl

tenant_block-IsSorted_example :
    ((block : UsageBlock) × (tenant_block invocations invocations (some (codes "t1")) ≡ ok block)
      × IsSorted
          (λ a b.
            if a.metrics.total_cost_usd == b.metrics.total_cost_usd
            then text_leb a.name b.name
            else ltb b.metrics.total_cost_usd a.metrics.total_cost_usd)
          block.parts
      × Lists invocations invocations (some (codes "t1")) invocations invocations block.parts)
    ⊎ ((tenant_block invocations invocations (some (codes "t1")) ≡ err value_error)
        × IsMisnamed invocations invocations (some (codes "t1")) invocations)
tenant_block-IsSorted_example = tenant_block-IsSorted invocations invocations (some (codes "t1"))
