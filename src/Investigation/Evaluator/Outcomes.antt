-- ===== src/Investigation/Evaluator/Outcomes.antt =====
-- Exactly when platform_investigation/evaluator.py evaluates a hypothesis, and to what.
use superoffice_ai_support_m.Common.{
  ◌≡◌, refl, ◌↔◌, ◌⊎◌, inl, inr, true, false, ◌||◌, List, [], ◌∷◌, ◌++◌, Text, strip, is_blank,
  length, ltb, ◌==◌, member, to_set, is_disjoint, is_subset, Distinct, member-to_set, member-append,
  length-to_set_iff, is_disjoint_iff, is_subset_iff, ok, err, arith, Bool-cases,
}
use superoffice_ai_support_m.Investigation.Models.{
  Hypothesis, HypothesisEvaluationOutcome, EvidenceAggregationResult, supported, refuted,
  unevaluated,
}
use superoffice_ai_support_m.Investigation.Evaluator.{
  EvaluationError, empty_hypothesis_id, duplicate_support, duplicate_refutation, conflict,
  unknown_evidence, evaluate, derive_outcome, available_evidence_ids,
}

-- The references of a hypothesis are in order.
pub record IsWellReferenced (hypothesis : Hypothesis) (evidence : EvidenceAggregationResult)
    : Type 0 where
  pub named : is_blank hypothesis.hypothesis_id ≡ false
  pub support_distinct : Distinct hypothesis.supporting_evidence_ids
  pub refutation_distinct : Distinct hypothesis.refuting_evidence_ids
  pub disjoint :
      (id : Text)
      → member id hypothesis.supporting_evidence_ids ≡ true
      → member id hypothesis.refuting_evidence_ids ≡ false
  pub known :
      (id : Text)
      → (member id hypothesis.supporting_evidence_ids || member id hypothesis.refuting_evidence_ids)
        ≡ true
      → member id (available_evidence_ids evidence) ≡ true

-- The outcome by what there is evidence for.
abbrev pub outcome_for : List Text → List Text → HypothesisEvaluationOutcome
outcome_for [] [] = unevaluated
outcome_for (_ ∷ _) [] = supported
outcome_for [] (_ ∷ _) = refuted
outcome_for (_ ∷ _) (_ ∷ _) = HypothesisEvaluationOutcome.inconclusive

derive_outcome_for :
    (s r : List Text) → derive_outcome (ltb 0 (length s)) (ltb 0 (length r)) ≡ outcome_for s r
unfolding derive_outcome
derive_outcome_for [] [] = refl
derive_outcome_for (_ ∷ s) [] = ground arith
derive_outcome_for [] (_ ∷ r) = ground arith
derive_outcome_for (_ ∷ s) (_ ∷ r) = ground arith

module _ (s r ids : List Text) where
  disjoint_sets :
      (is_disjoint (to_set s) (to_set r) ≡ true)
      ↔ ((id : Text) → member id s ≡ true → member id r ≡ false)
  disjoint_sets =
      let (to, from) = is_disjoint_iff (to_set s) (to_set r) in
      (
        (λ h id m. rw member-to_set at (to h id (rw member-to_set m))),
        (λ h. from (λ id m. rw member-to_set (h id (rw member-to_set at m)))),
      )

  known_sets :
      (is_subset (to_set s ++ to_set r) ids ≡ true)
      ↔ ((id : Text) → (member id s || member id r) ≡ true → member id ids ≡ true)
  known_sets =
      let (to, from) = is_subset_iff (to_set s ++ to_set r) ids in
      (
        (λ h id m. to h id (simp (member-append, member-to_set) m)),
        (λ h. from (λ id m. h id (simp (member-append, member-to_set) at m))),
      )

-- Evaluation succeeds exactly if the hypothesis has an identifier that is not blank, names no
-- evidence twice on either side and none on both sides, and names only evidence that was
-- collected. The result then has the trimmed identifier, and its outcome is unevaluated,
-- supported, refuted or inconclusive as the hypothesis names no evidence, only supporting, only
-- refuting, or both.
pub evaluate_lem :
    (hypothesis : Hypothesis) (evidence : EvidenceAggregationResult)
    → (IsWellReferenced hypothesis evidence
        × (evaluate hypothesis evidence
            ≡ ok (record {
              hypothesis_id = strip hypothesis.hypothesis_id;
              outcome =
                  outcome_for hypothesis.supporting_evidence_ids hypothesis.refuting_evidence_ids;
            })))
      ⊎ (¬ IsWellReferenced hypothesis evidence
          × (e : EvaluationError) × (evaluate hypothesis evidence ≡ err e))
unfolding evaluate
evaluate_lem hypothesis evidence =
    let s = hypothesis.supporting_evidence_ids in
    let r = hypothesis.refuting_evidence_ids in
    let (ds, ds') = length-to_set_iff s in
    let (dr, dr') = length-to_set_iff r in
    let (dj, dj') = disjoint_sets s r (available_evidence_ids evidence) in
    let (kn, kn') = known_sets s r (available_evidence_ids evidence) in
    elim (Bool-cases (is_blank hypothesis.hypothesis_id)) [
      | inl a ↦ inr ((λ w. (let n = w.named in cc)), empty_hypothesis_id, rw a)
      | inr a ↦ elim (Bool-cases (length s == length (to_set s))) [
        | inr b ↦ inr ((λ w. (let n = ds' w.support_distinct in cc)), duplicate_support, rw (a, b))
        | inl b ↦ elim (Bool-cases (length r == length (to_set r))) [
          | inr c ↦
              inr (
                (λ w. (let n = dr' w.refutation_distinct in cc)),
                duplicate_refutation,
                rw (a, b, c),
              )
          | inl c ↦ elim (Bool-cases (is_disjoint (to_set s) (to_set r))) [
            | inr d ↦ inr ((λ w. (let n = dj' w.disjoint in cc)), conflict, rw (a, b, c, d))
            | inl d ↦
                elim (Bool-cases
                  (is_subset (to_set s ++ to_set r) (available_evidence_ids evidence))) [
                    | inr e ↦
                        inr
                          ((λ w. (let n = kn' w.known in cc)), unknown_evidence, rw (a, b, c, d, e))
                    | inl e ↦ inl (
                      record {
                        named = a;
                        support_distinct = ds b;
                        refutation_distinct = dr c;
                        disjoint = dj d;
                        known = kn e;
                      },
                      rw (a, b, c, d, e, derive_outcome_for s r),
                    )
                  ]
          ]
        ]
      ]
    ]
