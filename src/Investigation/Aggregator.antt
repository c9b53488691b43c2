-- ===== src/Investigation/Aggregator.antt =====
-- platform_investigation/aggregator.py. A collector is what it returns for the two identifiers,
-- `none` where it raises: asyncio.gather keeps the collectors' order, and each runs by itself, so
-- the order in which they finish is not seen. The clock reading is an argument.
pub mod Provenance
use superoffice_ai_support_m.Common.{
  ℕ, Bool, true, false, Option, none, some, List, [], ◌∷◌, ◌++◌, Text, codes, strip, is_blank,
  member, Result, ok, err, ◌>>=◌, if◌then◌else◌, map,
}
use superoffice_ai_support_m.Investigation.Models.{
  EvidenceSourceType, DiagnosticEvidence, SourceCollectionResult, EvidenceAggregationResult,
  source_eq, failed,
}

pub data AggregationError : Type 0 where
  empty_investigation_id empty_correlation_key : AggregationError
  outcome_source_mismatch : EvidenceSourceType → EvidenceSourceType → AggregationError
  item_source_mismatch : EvidenceSourceType → EvidenceSourceType → Text → AggregationError
  duplicate_evidence_id : Text → AggregationError

pub record Collector : Type 0 where
  pub source_type : EvidenceSourceType
  pub collect : Text → Text → Option SourceCollectionResult

-- The outcome of a collector that raised.
unfoldable pub failed_outcome : EvidenceSourceType → ℕ → SourceCollectionResult
failed_outcome source_type now = record {
  source_type = source_type;
  status = failed;
  evidence = [];
  error_code = some (codes "SOURCE_EXECUTION_FAILED");
  error_message = some (codes "An unexpected error occurred during source collection.");
  collected_at = now;
}

unfoldable pub collect_safe : ℕ → Text → Text → Collector → SourceCollectionResult
unfolding failed_outcome
collect_safe now inv_id corr_key collector = elim (collector.collect inv_id corr_key) [
  | none ↦ failed_outcome collector.source_type now
  | some outcome ↦ outcome
]

-- The inner loop: the evidence identifiers that were seen, in the order in which they came.
unfoldable pub check_items :
    EvidenceSourceType → List Text → List DiagnosticEvidence → Result AggregationError (List Text)
check_items source_type seen [] = ok seen
check_items source_type seen (item ∷ items) =
    let rest = check_items source_type (item.evidence_id ∷ seen) items in
    if source_eq item.source_type source_type
    then (if member item.evidence_id seen
        then err (duplicate_evidence_id item.evidence_id)
        else rest)
    else err (item_source_mismatch source_type item.source_type item.evidence_id)

-- The outer loop over the collectors and their outcomes, in registration order.
unfoldable pub check_outcomes :
    List Text
    → List (EvidenceSourceType × SourceCollectionResult)
    → Result AggregationError (List SourceCollectionResult)
unfolding check_items
check_outcomes seen [] = ok []
check_outcomes seen ((source_type, outcome) ∷ pairs) =
    if source_eq outcome.source_type source_type
    then (do
      seen' ← check_items source_type seen outcome.evidence
      rest ← check_outcomes seen' pairs
      ok (outcome ∷ rest))
    else err (outcome_source_mismatch source_type outcome.source_type)

-- zip(collectors, raw_outcomes)
unfoldable pub gathered :
    ℕ → Text → Text → List Collector → List (EvidenceSourceType × SourceCollectionResult)
unfolding collect_safe
gathered now inv_id corr_key [] = []
gathered now inv_id corr_key (collector ∷ collectors) =
    (collector.source_type, collect_safe now inv_id corr_key collector)
    ∷ gathered now inv_id corr_key collectors

unfoldable pub aggregate :
    List Collector → Text → Text → ℕ → Result AggregationError EvidenceAggregationResult
aggregate collectors investigation_id correlation_key now =
    if is_blank investigation_id
    then err empty_investigation_id
    else if is_blank correlation_key
    then err empty_correlation_key
    else do
      outcomes ←
          check_outcomes []
            (gathered now (strip investigation_id) (strip correlation_key) collectors)
      ok (record {
        investigation_id = strip investigation_id;
        correlation_key = strip correlation_key;
        source_outcomes = outcomes;
        collected_at = now;
      })
