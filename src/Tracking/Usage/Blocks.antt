-- ===== src/Tracking/Usage/Blocks.antt =====
-- What a block of src/qfa/adapters/usage_repository.py lists, and in which order.
use qualitative_feedback_ana.Prelude.{
  ◌≡◌, ◌⊎◌, refl, sym, ap, ap₂, subst, ◌∙◌, true, false, Option, none, some, List, [], ◌∷◌, Text,
  text_leb, text_leb_total, text_leb_trans, ltb, if◌then◌else◌, ◌==◌, All, Among, Bool-cases,
  Option-cases, inl, inr, arith,
}
use qualitative_feedback_ana.Prelude.Sort.{
  sorted, IsSorted, sorted-IsSorted, All-sorted, Among-sorted,
}
use qualitative_feedback_ana.Tracking.Usage.{
  StatsEntry, PartStats, UsageBlock, same_axis, get_stats, dearer, is_operation, as_operation,
  operations_of, tenant_block,
}
use qualitative_feedback_ana.Domain.Errors.{Result, ok, err, ◌>>=◌, value_error}

dearer_total : (a b : PartStats) → (dearer a b ≡ true) ⊎ (dearer b a ≡ true)
dearer_total a b = ground (arith, text_leb_total a.name b.name)

dearer_trans : (a b c : PartStats) → dearer a b ≡ true → dearer b c ≡ true → dearer a c ≡ true
dearer_trans a b c p q = ground (arith, text_leb_trans a.name b.name c.name)

module _ (invocation_by_key llm_call_by_key : List StatsEntry) (tenant_id : Option Text) where
  -- An entry of the tenant with an operation and with calls.
  abbrev pub IsListed : StatsEntry → Text → Type 0
  IsListed entry operation =
      (same_axis entry.tenant_id tenant_id ≡ true)
      × (entry.operation ≡ some operation)
      × ((entry.metrics.total_calls == 0) ≡ false)

  abbrev pub part_of : StatsEntry → Text → PartStats
  part_of entry operation = record {
    name = operation;
    metrics = entry.metrics;
    llm_call_stats = get_stats entry.tenant_id (some operation) llm_call_by_key;
  }

  -- A part comes from an entry of the dictionary.
  abbrev pub IsPart : List StatsEntry → PartStats → Type 0
  IsPart entries part =
      (entry : StatsEntry) × Among entry entries
      × (IsListed entry part.name × (part ≡ part_of entry part.name))

  -- Parts of entries of the dictionary, each named by an operation, and all that are listed.
  abbrev pub Lists : (all_entries entries : List StatsEntry) → List PartStats → Type 0
  Lists all_entries entries parts =
      All (λ part. is_operation part.name ≡ true) parts
      × All (IsPart all_entries) parts
      × ((entry : StatsEntry) (operation : Text)
          → Among entry entries
          → IsListed entry operation
          → Among (part_of entry operation) parts)

  -- Of what is listed, one names no operation.
  abbrev pub IsMisnamed : List StatsEntry → Type 0
  IsMisnamed entries =
      (entry : StatsEntry) × Among entry entries
      × ((operation : Text) × IsListed entry operation × (is_operation operation ≡ false))

  -- The entry is passed over.
  passed_over :
      (all_entries : List StatsEntry) (e : StatsEntry) (es : List StatsEntry)
      (parts : List PartStats)
      → ((operation : Text) → ¬ IsListed e operation)
      → Lists all_entries es parts
      → Lists all_entries (e ∷ es) parts
  passed_over all_entries e es parts unlisted (named, are_parts, complete) =
      (named, are_parts, complete_too)
    where
      complete_too :
          (entry : StatsEntry) (operation : Text)
          → Among entry (e ∷ es)
          → IsListed entry operation
          → Among (part_of entry operation) parts
      complete_too entry operation (inl this) listed =
          absurd (unlisted operation (subst (λ x. IsListed x operation) this listed))
      complete_too entry operation (inr m) listed = complete entry operation m listed

  -- The entry is listed.
  taken :
      (all_entries : List StatsEntry) (e : StatsEntry) (es : List StatsEntry)
      (parts : List PartStats) (name : Text)
      → Among e all_entries
      → IsListed e name
      → is_operation name ≡ true
      → Lists all_entries es parts
      → Lists all_entries (e ∷ es) (part_of e name ∷ parts)
  taken all_entries e es parts name m listed valid (named, are_parts, complete) =
      ((valid, named), ((e, m, (listed, refl)), are_parts), complete_too)
    where
      some_same : {s t : Text} → some s ≡ some t → s ≡ t
      some_same e = cc

      complete_too :
          (entry : StatsEntry) (operation : Text)
          → Among entry (e ∷ es)
          → IsListed entry operation
          → Among (part_of entry operation) (part_of e name ∷ parts)
      complete_too entry operation (inl this) other =
          inl (ap₂ part_of this (some_same (sym other.1 ∙ (ap (λ x. x.operation) this ∙ listed.1))))
      complete_too entry operation (inr m) other = inr (complete entry operation m other)

  operations_of_step :
      (e : StatsEntry) (es : List StatsEntry)
      → (operations_of invocation_by_key llm_call_by_key tenant_id (e ∷ es)
            ≡ operations_of invocation_by_key llm_call_by_key tenant_id es
          × ((operation : Text) → ¬ IsListed e operation))
        ⊎ ((operation : Text) × IsListed e operation
            × (operations_of invocation_by_key llm_call_by_key tenant_id (e ∷ es) ≡ (
                as_operation operation >>= λ name.
                operations_of invocation_by_key llm_call_by_key tenant_id es >>= λ parts. ok (
                  record {
                    name = name;
                    metrics = e.metrics;
                    llm_call_stats = get_stats e.tenant_id (some operation) llm_call_by_key;
                  }
                  ∷ parts))))
  unfolding operations_of
  operations_of_step e es = elim (Option-cases e.operation) [
    | inl nothing ↦ inl (rw nothing refl, λ operation listed. none_some (sym nothing ∙ listed.1))
    | inr (operation, named) ↦ elim (Bool-cases (same_axis e.tenant_id tenant_id)) [
      | inr elsewhere ↦
          inl
            (rw (named, elsewhere) refl, λ operation listed. true_false (sym listed.0 ∙ elsewhere))
      | inl here ↦ elim (Bool-cases (e.metrics.total_calls == 0)) [
        | inl idle ↦
            inl (rw (named, here, idle) refl, λ operation listed. true_false (sym idle ∙ listed.2))
        | inr busy ↦ inr (operation, (here, named, busy), rw (named, here, busy) refl)
      ]
    ]
  ]
    where
      none_some : {name : Text} → none ≡ some name → ⊥
      none_some e = cc

      true_false : true ≡ false → ⊥
      true_false e = cc

  -- Either the parts, or what `Operation` raises.
  abbrev Ends : (all_entries entries : List StatsEntry) → Result (List PartStats) → Type 0
  Ends all_entries entries result =
      ((parts : List PartStats) × (result ≡ ok parts) × Lists all_entries entries parts)
      ⊎ ((result ≡ err value_error) × IsMisnamed entries)

  IsMisnamed-later : (e : StatsEntry) (es : List StatsEntry) → IsMisnamed es → IsMisnamed (e ∷ es)
  IsMisnamed-later e es (entry, m, rest) = (entry, inr m, rest)

  operations_of-Ends :
      (all_entries es : List StatsEntry)
      → ((e : StatsEntry) → Among e es → Among e all_entries)
      → Ends all_entries es (operations_of invocation_by_key llm_call_by_key tenant_id es)
  operations_of-Ends all_entries [] within =
      inl ([], unfold operations_of in refl, (tt, tt, λ entry operation m listed. absurd m))
  operations_of-Ends all_entries (e ∷ es) within =
      let later = operations_of-Ends all_entries es (λ x m. within x (inr m)) in
      elim (operations_of_step e es) [
        | inl (same, unlisted) ↦ elim later [
          | inl (parts, returned, lists) ↦
              inl (parts, same ∙ returned, passed_over all_entries e es parts unlisted lists)
          | inr (raised, misnamed) ↦ inr (same ∙ raised, IsMisnamed-later e es misnamed)
        ]
        | inr (name, listed, same) ↦ elim (Bool-cases (is_operation name)) [
          | inr invalid ↦ inr (same ∙ rw invalid refl, (e, inl refl, (name, listed, invalid)))
          | inl valid ↦ elim later [
            | inl (parts, returned, lists) ↦ inl (
              part_of e name ∷ parts,
              same ∙ rw (valid, returned) refl,
              taken all_entries e es parts name (within e (inl refl)) listed valid lists,
            )
            | inr (raised, misnamed) ↦
                inr (same ∙ rw (valid, raised) refl, IsMisnamed-later e es misnamed)
          ]
        ]
      ]

  -- The parts of a tenant's block are in order, by cost, the highest first, and then by name. Each comes from an entry of the tenant that names an operation
  -- and has calls, and each such entry is there. If one of these entries names what is not an operation, then there is no block but the error of its conversion.
  pub tenant_block-IsSorted :
      ((block : UsageBlock) × (tenant_block invocation_by_key llm_call_by_key tenant_id ≡ ok block)
        × IsSorted
            (λ a b.
              if a.metrics.total_cost_usd == b.metrics.total_cost_usd
              then text_leb a.name b.name
              else ltb b.metrics.total_cost_usd a.metrics.total_cost_usd)
            block.parts
        × Lists invocation_by_key invocation_by_key block.parts)
      ⊎ ((tenant_block invocation_by_key llm_call_by_key tenant_id ≡ err value_error)
          × IsMisnamed invocation_by_key)
  unfolding tenant_block
  tenant_block-IsSorted = elim (operations_of-Ends invocation_by_key invocation_by_key (λ e m. m)) [
    | inr (raised, misnamed) ↦ inr (rw raised refl, misnamed)
    | inl (parts, returned, (named, are_parts, complete)) ↦ inl (
      record {
        name = tenant_id;
        metrics = get_stats tenant_id none invocation_by_key;
        llm_call_stats = get_stats tenant_id none llm_call_by_key;
        parts = sorted dearer parts;
      },
      rw returned refl,
      sorted-IsSorted dearer dearer_total dearer_trans parts,
      (
        All-sorted dearer (λ part. is_operation part.name ≡ true) parts named,
        All-sorted dearer (IsPart invocation_by_key) parts are_parts,
        λ entry operation m listed. Among-sorted dearer _ parts (complete entry operation m listed),
      ),
    )
  ]
