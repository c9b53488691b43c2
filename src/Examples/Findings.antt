-- ===== src/Examples/Findings.antt =====
-- Runs of platform_investigation/aggregator.py and evaluator.py on two sources.
use superoffice_ai_support_m.Common.{
  map, ◌≡◌, refl, ◌⊎◌, some, none, List, [], ◌∷◌, codes, is_blank, strip, ok, err,
}
use superoffice_ai_support_m.Investigation.Models.{
  DiagnosticEvidence, Hypothesis, SourceCollectionResult, EvidenceAggregationResult,
  mssql_diagnostics, application_logs, success, proposed,
}
use superoffice_ai_support_m.Investigation.Aggregator.{AggregationError, Collector, aggregate}
use superoffice_ai_support_m.Investigation.Aggregator.Provenance.{
  IsCoherent, outcome_of, aggregate_lem,
}
use superoffice_ai_support_m.Investigation.Evaluator.{EvaluationError, evaluate}
use superoffice_ai_support_m.Investigation.Evaluator.Outcomes.{
  IsWellReferenced, outcome_for, evaluate_lem,
}

abbrev pub deadlock : DiagnosticEvidence
deadlock = record {
  evidence_id = codes "ev-1";
  source_type = mssql_diagnostics;
  title = codes "deadlock";
  timestamp = 3;
  payload = [];
  tags = [];
  correlation_references = [];
}

abbrev pub mssql_outcome : SourceCollectionResult
mssql_outcome = record {
  source_type = mssql_diagnostics;
  status = success;
  evidence = deadlock ∷ [];
  error_code = none;
  error_message = none;
  collected_at = 4;
}

abbrev mssql_collector : Collector
mssql_collector = record {
  source_type = mssql_diagnostics;
  collect = λ inv key. some mssql_outcome;
}

abbrev raising_collector : Collector
raising_collector = record { source_type = application_logs; collect = λ inv key. none }

abbrev collectors : List Collector
collectors = mssql_collector ∷ raising_collector ∷ []

aggregate_lem_example :
    (IsCoherent collectors (codes " inv-1 ") (codes "T-9") 5
      × (aggregate collectors (codes " inv-1 ") (codes "T-9") 5
          ≡ ok (record {
            investigation_id = strip (codes " inv-1 ");
            correlation_key = strip (codes "T-9");
            source_outcomes =
                map (outcome_of collectors (codes " inv-1 ") (codes "T-9") 5) collectors;
            collected_at = 5;
          })))
    ⊎ (¬ IsCoherent collectors (codes " inv-1 ") (codes "T-9") 5
        × (e : AggregationError) × (aggregate collectors (codes " inv-1 ") (codes "T-9") 5 ≡ err e))
unfolding is_blank
aggregate_lem_example = aggregate_lem collectors (codes " inv-1 ") (codes "T-9") 5 refl refl

abbrev suspicion : Hypothesis
suspicion = record {
  hypothesis_id = codes "hyp-1";
  description = codes "lock contention";
  status = proposed;
  supporting_evidence_ids = codes "ev-1" ∷ [];
  refuting_evidence_ids = [];
}

abbrev pub collected : EvidenceAggregationResult
collected = record {
  investigation_id = codes "inv-1";
  correlation_key = codes "T-9";
  source_outcomes = mssql_outcome ∷ [];
  collected_at = 5;
}

evaluate_lem_example :
    (IsWellReferenced suspicion collected
      × (evaluate suspicion collected
          ≡ ok (record {
            hypothesis_id = strip suspicion.hypothesis_id;
            outcome = outcome_for suspicion.supporting_evidence_ids suspicion.refuting_evidence_ids;
          })))
    ⊎ (¬ IsWellReferenced suspicion collected
        × (e : EvaluationError) × (evaluate suspicion collected ≡ err e))
evaluate_lem_example = evaluate_lem suspicion collected
