-- ===== src/Investigation/Models.antt =====
-- platform_investigation/models.py. Times are natural numbers, the clock's ticks. The confidence
-- numbers, which no operation reads, are left out, and of an evidence payload a value is kept if
-- it is a str. What pydantic stores is taken as it hands it over, strings trimmed.
use superoffice_ai_support_m.Common.{
  ℕ, Bool, true, false, not, ◌&&◌, Option, none, some, List, [], ◌∷◌, ◌++◌, Text, is_blank, Dict,
  ltb, is_empty, any, count_if, length, if◌then◌else◌,
}

pub data EvidenceSourceType : Type 0 where
  mssql_diagnostics application_logs superoffice_crm knowledge_base : EvidenceSourceType
  infrastructure_probe : EvidenceSourceType

pub data InvestigationStatus : Type 0 where
  initialized in_progress concluded aborted step_limit_exceeded : InvestigationStatus

pub data HypothesisStatus : Type 0 where
  proposed confirmed disproven inconclusive : HypothesisStatus

pub data HypothesisEvaluationOutcome : Type 0 where
  supported refuted inconclusive unevaluated : HypothesisEvaluationOutcome

pub data SourceCollectionStatus : Type 0 where
  success blocked not_configured unavailable failed : SourceCollectionStatus

pub record CorrelationReference : Type 0 where
  pub namespace : Text
  pub value : Text

pub data Payload : Type 0 where
  text : Text → Payload
  other : Payload

pub record DiagnosticEvidence : Type 0 where
  pub evidence_id : Text
  pub source_type : EvidenceSourceType
  pub title : Text
  pub timestamp : ℕ
  pub payload : Dict Payload
  pub tags : List Text
  pub correlation_references : List CorrelationReference

pub record Hypothesis : Type 0 where
  pub hypothesis_id : Text
  pub description : Text
  pub status : HypothesisStatus
  pub supporting_evidence_ids : List Text
  pub refuting_evidence_ids : List Text

pub record HypothesisEvaluationResult : Type 0 where
  pub hypothesis_id : Text
  pub outcome : HypothesisEvaluationOutcome

pub record InvestigationStep : Type 0 where
  pub step_number : ℕ
  pub action_taken : Text
  pub summary : Text
  pub severity : Text
  pub correlation_keys : List Text
  pub collected_evidence_ids : List Text
  pub timestamp : ℕ

pub record InvestigationPlan : Type 0 where
  pub investigation_id : Text
  pub status : InvestigationStatus
  pub max_steps : ℕ
  pub current_step_count : ℕ
  pub steps : List InvestigationStep
  pub hypotheses : List Hypothesis
  pub concluded_root_cause : Option Text
  pub created_at : ℕ
  pub updated_at : ℕ

pub record SourceCollectionResult : Type 0 where
  pub source_type : EvidenceSourceType
  pub status : SourceCollectionStatus
  pub evidence : List DiagnosticEvidence
  pub error_code : Option Text
  pub error_message : Option Text
  pub collected_at : ℕ

abbrev pub source_eq : EvidenceSourceType → EvidenceSourceType → Bool
source_eq mssql_diagnostics mssql_diagnostics = true
source_eq application_logs application_logs = true
source_eq superoffice_crm superoffice_crm = true
source_eq knowledge_base knowledge_base = true
source_eq infrastructure_probe infrastructure_probe = true
source_eq _ _ = false

abbrev pub is_success : SourceCollectionStatus → Bool
is_success success = true
is_success _ = false

-- error_code is absent, empty or blank
unfoldable pub lacks_code : Option Text → Bool
lacks_code none = true
lacks_code (some code) = is_blank code

abbrev is_some : Option Text → Bool
is_some none = false
is_some (some _) = true

-- SourceCollectionResult._validate_invariants: true if it raises nothing.
unfoldable pub valid_source_result : SourceCollectionResult → Bool
unfolding lacks_code
valid_source_result result =
    (if is_success result.status
      then not (is_some result.error_code) && not (is_some result.error_message)
      else is_empty result.evidence && not (lacks_code result.error_code))
    && not (
        any (λ (item : DiagnosticEvidence). not (source_eq item.source_type result.source_type))
          result.evidence)

pub record EvidenceAggregationResult : Type 0 where
  pub investigation_id : Text
  pub correlation_key : Text
  pub source_outcomes : List SourceCollectionResult
  pub collected_at : ℕ

abbrev outcome_success : SourceCollectionResult → Bool
outcome_success result = is_success result.status

abbrev outcome_failure : SourceCollectionResult → Bool
outcome_failure result = not (is_success result.status)

-- The derived properties of an aggregation result.
unfoldable pub total_sources : EvidenceAggregationResult → ℕ
total_sources result = length result.source_outcomes

unfoldable pub successful_sources_count : EvidenceAggregationResult → ℕ
successful_sources_count result = count_if outcome_success result.source_outcomes

unfoldable pub has_failures : EvidenceAggregationResult → Bool
has_failures result = any outcome_failure result.source_outcomes

unfoldable pub has_partial_failures : EvidenceAggregationResult → Bool
has_partial_failures result =
    any outcome_success result.source_outcomes && any outcome_failure result.source_outcomes

unfoldable pub all_sources_failed : EvidenceAggregationResult → Bool
unfolding successful_sources_count
all_sources_failed result =
    ltb 0 (length result.source_outcomes) && not (ltb 0 (successful_sources_count result))

-- The flattened view of the evidence, in the order of the sources.
unfoldable pub flatten_evidence : List SourceCollectionResult → List DiagnosticEvidence
flatten_evidence [] = []
flatten_evidence (outcome ∷ outcomes) = outcome.evidence ++ flatten_evidence outcomes

unfoldable pub evidence_of : EvidenceAggregationResult → List DiagnosticEvidence
unfolding flatten_evidence
evidence_of result = flatten_evidence result.source_outcomes
