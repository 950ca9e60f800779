-- ===== src/Tracking/Usage.antt =====
-- The blocks that src/qfa/adapters/usage_repository.py makes of the rows of its queries, with the models of src/qfa/domain/usage_models.py. The rows
-- are arguments: the database aggregates them. An operation is the text of the enumeration. Amounts, averages and percentiles are numbers of some smallest unit.
pub mod Blocks
use qualitative_feedback_ana.Prelude.{
  ℕ, ◌≡◌, ◌⊎◌, refl, Bool, true, false, not, ◌&&◌, ◌||◌, Option, none, some, List, [], ◌∷◌, ◌++◌,
  Text, codes, map, text_eq, text_leb, ltb, ◌==◌, any, if◌then◌else◌,
}
use qualitative_feedback_ana.Prelude.Sort.{sorted}
use qualitative_feedback_ana.Domain.Errors.{Result, ok, err, ◌>>=◌, value_error}

pub record DistributionStats : Type 0 where
  pub avg : ℕ
  pub least : ℕ
  pub greatest : ℕ
  pub p5 : ℕ
  pub p95 : ℕ
  pub total : ℕ

pub record UsageMetrics : Type 0 where
  pub total_calls : ℕ
  pub failed_calls : ℕ
  pub total_cost_usd : ℕ
  pub call_duration : DistributionStats
  pub input_tokens : DistributionStats
  pub output_tokens : DistributionStats

-- The columns of one distribution; `avg` is NULL where no row is in scope, and so is all else.
pub record DistributionColumns : Type 0 where
  pub avg : Option ℕ
  pub least : ℕ
  pub greatest : ℕ
  pub p5 : ℕ
  pub p95 : ℕ
  pub sum : Option ℕ

pub record StatsRow : Type 0 where
  pub tenant_id : Option Text
  pub operation : Option Text
  pub total_calls : Option ℕ
  pub failed_calls : Option ℕ
  pub total_cost_usd : Option ℕ
  pub duration : DistributionColumns
  pub input_tokens : DistributionColumns
  pub output_tokens : DistributionColumns

-- `value or 0`
abbrev pub or_zero : Option ℕ → ℕ
or_zero none = 0
or_zero (some n) = n

abbrev pub no_distribution : DistributionStats
no_distribution = record { avg = 0; least = 0; greatest = 0; p5 = 0; p95 = 0; total = 0 }

unfoldable pub parse_distribution : DistributionColumns → DistributionStats
parse_distribution columns = elim columns.avg [
  | none ↦ no_distribution
  | some avg ↦ record {
    avg = avg;
    least = columns.least;
    greatest = columns.greatest;
    p5 = columns.p5;
    p95 = columns.p95;
    total = or_zero columns.sum;
  }
]

unfoldable pub row_to_usage_metrics : StatsRow → UsageMetrics
unfolding parse_distribution
row_to_usage_metrics row = record {
  total_calls = or_zero row.total_calls;
  failed_calls = or_zero row.failed_calls;
  total_cost_usd = or_zero row.total_cost_usd;
  call_duration = parse_distribution row.duration;
  input_tokens = parse_distribution row.input_tokens;
  output_tokens = parse_distribution row.output_tokens;
}

abbrev pub zero_usage_metrics : UsageMetrics
zero_usage_metrics = record {
  total_calls = 0;
  failed_calls = 0;
  total_cost_usd = 0;
  call_duration = no_distribution;
  input_tokens = no_distribution;
  output_tokens = no_distribution;
}

abbrev pub same_axis : Option Text → Option Text → Bool
same_axis none none = true
same_axis (some s) (some t) = text_eq s t
same_axis _ _ = false

-- A dictionary by tenant and operation, in the order of insertion.
pub record StatsEntry : Type 0 where
  pub tenant_id : Option Text
  pub operation : Option Text
  pub metrics : UsageMetrics

abbrev pub is_entry : (tenant_id operation : Option Text) → StatsEntry → Bool
is_entry tenant_id operation entry =
    same_axis tenant_id entry.tenant_id && same_axis operation entry.operation

put_stats : StatsEntry → List StatsEntry → List StatsEntry
put_stats entry [] = entry ∷ []
put_stats entry (e ∷ es) =
    if is_entry entry.tenant_id entry.operation e then entry ∷ es else e ∷ put_stats entry es

index_from : List StatsEntry → List StatsRow → List StatsEntry
unfolding put_stats row_to_usage_metrics
index_from indexed [] = indexed
index_from indexed (row ∷ rows) =
    index_from
      (put_stats
        record {
          tenant_id = row.tenant_id;
          operation = row.operation;
          metrics = row_to_usage_metrics row;
        }
        indexed)
      rows

unfoldable pub index_rows : List StatsRow → List StatsEntry
unfolding index_from
index_rows rows = index_from [] rows

unfoldable pub get_stats : (tenant_id operation : Option Text) → List StatsEntry → UsageMetrics
get_stats tenant_id operation [] = zero_usage_metrics
get_stats tenant_id operation (e ∷ es) =
    if is_entry tenant_id operation e then e.metrics else get_stats tenant_id operation es

-- A part of a block: `OperationStats` by its operation, or `TenantStats` by its tenant.
pub record PartStats : Type 0 where
  pub name : Text
  pub metrics : UsageMetrics
  pub llm_call_stats : UsageMetrics

-- `TenantUsageStats` or `OperationUsageStats`.
pub record UsageBlock : Type 0 where
  pub name : Option Text
  pub metrics : UsageMetrics
  pub llm_call_stats : UsageMetrics
  pub parts : List PartStats

-- By cost, the highest first, and then by name.
abbrev pub dearer : PartStats → PartStats → Bool
dearer a b =
    if a.metrics.total_cost_usd == b.metrics.total_cost_usd
    then text_leb a.name b.name
    else ltb b.metrics.total_cost_usd a.metrics.total_cost_usd

-- The values of `Operation`.
abbrev pub operation_values : List Text
operation_values =
    codes "analyze"
    ∷ codes "summarize"
    ∷ codes "summarize_aggregate"
    ∷ codes "assign_codes"
    ∷ codes "detect_sensitive"
    ∷ codes "unknown"
    ∷ []

unfoldable pub is_operation : Text → Bool
is_operation name = any (text_eq name) operation_values

-- `Operation(name)`
abbrev pub as_operation : Text → Result Text
as_operation name = if is_operation name then ok name else err value_error

abbrev pub as_operation_or_none : Option Text → Result (Option Text)
as_operation_or_none none = ok none
as_operation_or_none (some name) = as_operation name >>= λ operation. ok (some operation)

module _ (invocation_by_key llm_call_by_key : List StatsEntry) where
  operations_of : (tenant_id : Option Text) → List StatsEntry → Result (List PartStats)
  unfolding get_stats is_operation
  operations_of tenant_id [] = ok []
  operations_of tenant_id (e ∷ es) =
      let rest = operations_of tenant_id es in
      elim e.operation [
        | none ↦ rest
        | some operation ↦
            if not (same_axis e.tenant_id tenant_id) || e.metrics.total_calls == 0
            then rest
            else as_operation operation >>= λ name. rest >>= λ parts. ok (
                record {
                  name = name;
                  metrics = e.metrics;
                  llm_call_stats = get_stats e.tenant_id (some operation) llm_call_by_key;
                }
                ∷ parts)
      ]

  tenants_of : (operation : Option Text) → List StatsEntry → List PartStats
  unfolding get_stats
  tenants_of operation [] = []
  tenants_of operation (e ∷ es) =
      let rest = tenants_of operation es in
      elim e.tenant_id [
        | none ↦ rest
        | some tenant_id ↦
            if not (same_axis e.operation operation) || e.metrics.total_calls == 0
            then rest
            else record {
              name = tenant_id;
              metrics = e.metrics;
              llm_call_stats = get_stats (some tenant_id) e.operation llm_call_by_key;
            }
              ∷ rest
      ]

  -- `_build_block` on the axis of tenants, with `None` for the grand total.
  unfoldable pub tenant_block : (tenant_id : Option Text) → Result UsageBlock
  unfolding operations_of sorted
  tenant_block tenant_id = operations_of tenant_id invocation_by_key >>= λ operations. ok record {
    name = tenant_id;
    metrics = get_stats tenant_id none invocation_by_key;
    llm_call_stats = get_stats tenant_id none llm_call_by_key;
    parts = sorted dearer operations;
  }

  -- `_build_block` on the axis of operations.
  unfoldable pub operation_block : (operation : Option Text) → Result UsageBlock
  unfolding tenants_of is_operation sorted
  operation_block operation = as_operation_or_none operation >>= λ name. ok record {
    name = name;
    metrics = get_stats none operation invocation_by_key;
    llm_call_stats = get_stats none operation llm_call_by_key;
    parts = sorted dearer (tenants_of operation invocation_by_key);
  }

-- The set of the tenants that have an entry for all operations.
tenants_in : List StatsEntry → List Text
tenants_in [] = []
tenants_in (e ∷ es) = elim e.operation [
  | some operation ↦ tenants_in es
  | none ↦ elim e.tenant_id [
    | none ↦ tenants_in es
    | some tenant_id ↦
        if any (text_eq tenant_id) (tenants_in es) then tenants_in es else tenant_id ∷ tenants_in es
  ]
]

-- The set of the operations that have an entry for all tenants.
operations_in : List StatsEntry → List Text
operations_in [] = []
operations_in (e ∷ es) = elim e.tenant_id [
  | some tenant_id ↦ operations_in es
  | none ↦ elim e.operation [
    | none ↦ operations_in es
    | some operation ↦
        if any (text_eq operation) (operations_in es)
        then operations_in es
        else operation ∷ operations_in es
  ]
]

-- The name of a block that is no grand total.
abbrev block_name : UsageBlock → Text
block_name block = elim block.name [ none ↦ [] | some name ↦ name ]

abbrev dearer_block : UsageBlock → UsageBlock → Bool
dearer_block a b =
    if a.metrics.total_cost_usd == b.metrics.total_cost_usd
    then text_leb (block_name a) (block_name b)
    else ltb b.metrics.total_cost_usd a.metrics.total_cost_usd

-- One block after the other, until one of them raises.
blocks_of : (Text → Result UsageBlock) → List Text → Result (List UsageBlock)
blocks_of block [] = ok []
blocks_of block (name ∷ names) =
    block name >>= λ first. blocks_of block names >>= λ rest. ok (first ∷ rest)

module _ (invocation_by_key llm_call_by_key : List StatsEntry) where
  -- A block for each tenant, and the grand total.
  unfoldable pub all_usage_by_tenant : Result (List UsageBlock)
  unfolding tenants_in tenant_block blocks_of sorted
  all_usage_by_tenant =
      blocks_of (λ tenant_id. tenant_block invocation_by_key llm_call_by_key (some tenant_id))
        (sorted text_leb (tenants_in invocation_by_key))
      >>= λ blocks. tenant_block invocation_by_key llm_call_by_key none >>= λ grand_total.
          ok (blocks ++ grand_total ∷ [])

  -- A block for each operation, the dearest first, and the grand total.
  unfoldable pub all_usage_by_operation : Result (List UsageBlock)
  unfolding operations_in operation_block blocks_of sorted
  all_usage_by_operation =
      blocks_of (λ operation. operation_block invocation_by_key llm_call_by_key (some operation))
        (operations_in invocation_by_key)
      >>= λ blocks. operation_block invocation_by_key llm_call_by_key none >>= λ grand_total.
          ok (sorted dearer_block blocks ++ grand_total ∷ [])
