-- ===== src/Investigation/Evaluator.antt =====
-- platform_investigation/evaluator.py: the outcome of a hypothesis from the evidence that it names.
pub mod Outcomes
use superoffice_ai_support_m.Common.{
  ℕ, ◌<◌, Bool, true, false, not, List, [], ◌∷◌, ◌++◌, map, Text, strip, is_blank, length, ltb,
  ◌==◌, to_set, is_disjoint, is_subset, Result, ok, err, if◌then◌else◌,
}
use superoffice_ai_support_m.Investigation.Models.{
  Hypothesis, HypothesisEvaluationOutcome, HypothesisEvaluationResult, DiagnosticEvidence,
  EvidenceAggregationResult, evidence_of, supported, refuted, unevaluated,
}

pub data EvaluationError : Type 0 where
  empty_hypothesis_id duplicate_support duplicate_refutation conflict : EvaluationError
  unknown_evidence : EvaluationError

unfoldable pub derive_outcome : Bool → Bool → HypothesisEvaluationOutcome
derive_outcome false false = unevaluated
derive_outcome true false = supported
derive_outcome false true = refuted
derive_outcome true true = HypothesisEvaluationOutcome.inconclusive

abbrev pub evidence_id_of : DiagnosticEvidence → Text
evidence_id_of item = item.evidence_id

unfoldable pub available_evidence_ids : EvidenceAggregationResult → List Text
available_evidence_ids evidence = map evidence_id_of (evidence_of evidence)

unfoldable pub evaluate :
    Hypothesis → EvidenceAggregationResult → Result EvaluationError HypothesisEvaluationResult
unfolding derive_outcome
evaluate hypothesis evidence =
    let supporting_ids = hypothesis.supporting_evidence_ids in
    let refuting_ids = hypothesis.refuting_evidence_ids in
    let support_set = to_set supporting_ids in
    let refute_set = to_set refuting_ids in
    if is_blank hypothesis.hypothesis_id
    then err empty_hypothesis_id
    else if not (length supporting_ids == length support_set)
    then err duplicate_support
    else if not (length refuting_ids == length refute_set)
    then err duplicate_refutation
    else if not (is_disjoint support_set refute_set)
    then err conflict
    else if not (is_subset (support_set ++ refute_set) (available_evidence_ids evidence))
    then err unknown_evidence
    else ok (record {
      hypothesis_id = strip hypothesis.hypothesis_id;
      outcome = derive_outcome (ltb 0 (length supporting_ids)) (ltb 0 (length refuting_ids));
    })
