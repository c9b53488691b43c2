-- ===== src/Investigation/Aggregator/Provenance.antt =====
-- What a successful aggregation of platform_investigation/aggregator.py guarantees, and when
-- there is one.
use superoffice_ai_support_m.Common.{
  ℕ, ◌≡◌, refl, sym, ap₂, ◌↔◌, ◌⊎◌, inl, inr, true, false, none, some, codes, List, [], ◌∷◌, ◌++◌,
  map, Text, strip, is_blank, member, text_eq_iff, Distinct, All, ok, err, arith, Bool-cases,
}
use superoffice_ai_support_m.Investigation.Models.{
  EvidenceSourceType, DiagnosticEvidence, SourceCollectionResult, source_eq, flatten_evidence,
  valid_source_result, failed,
}
use superoffice_ai_support_m.Investigation.Evaluator.{evidence_id_of}
use superoffice_ai_support_m.Investigation.Aggregator.{
  AggregationError, item_source_mismatch, duplicate_evidence_id, outcome_source_mismatch, Collector,
  collect_safe, failed_outcome, check_items, check_outcomes, gathered, aggregate,
}

source_eq_iff : (a b : EvidenceSourceType) → (source_eq a b ≡ true) ↔ (a ≡ b)
source_eq_iff a b = ((λ h. ground arith), (λ h. ground arith))

abbrev pub ids_of : List DiagnosticEvidence → List Text
ids_of items = map evidence_id_of items

-- The evidence identifiers are new, and pairwise different.
abbrev pub NewIds : List Text → List DiagnosticEvidence → Type 0
NewIds seen [] = Unit
NewIds seen (item ∷ items) =
    (member item.evidence_id seen ≡ false) × NewIds (item.evidence_id ∷ seen) items

-- Every item is from the source.
abbrev pub FromSource : EvidenceSourceType → List DiagnosticEvidence → Type 0
FromSource source items = All (λ (item : DiagnosticEvidence). item.source_type ≡ source) items

-- The set of seen identifiers after the items.
seen_after : List Text → List DiagnosticEvidence → List Text
seen_after seen [] = seen
seen_after seen (item ∷ items) = seen_after (item.evidence_id ∷ seen) items

check_items_lem :
    (source : EvidenceSourceType) (seen : List Text) (items : List DiagnosticEvidence)
    → ((check_items source seen items ≡ ok (seen_after seen items))
        × FromSource source items
        × NewIds seen items)
      ⊎ (¬ (FromSource source items × NewIds seen items)
          × (e : AggregationError) × (check_items source seen items ≡ err e))
unfolding check_items seen_after
check_items_lem source seen [] = inl (refl, tt, tt)
check_items_lem source seen (item ∷ items) = elim (Bool-cases (source_eq item.source_type source)) [
  | inr a ↦ inr (
    (λ (f, n). (let e = (source_eq_iff item.source_type source).1 f.0 in cc)),
    item_source_mismatch source item.source_type item.evidence_id,
    rw a,
  )
  | inl a ↦ elim (Bool-cases (member item.evidence_id seen)) [
    | inl b ↦
        inr ((λ (f, n). (let e = n.0 in cc)), duplicate_evidence_id item.evidence_id, rw (a, b))
    | inr b ↦ elim (check_items_lem source (item.evidence_id ∷ seen) items) [
      | inl (e, f, n) ↦ inl (rw (a, b, e), ((source_eq_iff item.source_type source).0 a, f), (b, n))
      | inr (bad, e, h) ↦ inr ((λ (f, n). bad (f.1, n.1)), e, rw (a, b, h))
    ]
  ]
]

NewIds-append :
    (seen : List Text) (xs ys : List DiagnosticEvidence)
    → NewIds seen (xs ++ ys) ↔ (NewIds seen xs × NewIds (seen_after seen xs) ys)
unfolding seen_after
NewIds-append seen [] ys = ((λ n. (tt, n)), (λ n. n.1))
NewIds-append seen (x ∷ xs) ys =
    let (to, from) = NewIds-append (x.evidence_id ∷ seen) xs ys in
    ((λ n. let (p, q) = to n.1 in ((n.0, p), q)), (λ (p, q). (p.0, from (p.1, q))))

-- New identifiers are pairwise different, and different from those seen.
NewIds-iff :
    (seen : List Text) (items : List DiagnosticEvidence)
    → NewIds seen items ↔ (
        Distinct (ids_of items)
        × ((id : Text) → member id (ids_of items) ≡ true → member id seen ≡ false))
unfolding member
NewIds-iff seen [] = ((λ n. (tt, λ id m. cc)), (λ n. tt))
NewIds-iff seen (item ∷ items) =
    let (to, from) = NewIds-iff (item.evidence_id ∷ seen) items in
    (
      (λ n.
          let (distinct, apart) = to n.1 in
          (
            (
              absent (λ m.
                  let e = apart item.evidence_id m in
                  ground (arith, text_eq_iff item.evidence_id item.evidence_id)),
              distinct,
            ),
            λ id m. ground (arith, text_eq_iff id item.evidence_id, apart id, n.0),
          )),
      (λ (distinct, apart).
          let first =
            apart item.evidence_id
              (ground (arith, text_eq_iff item.evidence_id item.evidence_id)) in
          (
            first,
            from (
              distinct.1,
              λ id m.
                  let a = apart id (ground arith) in
                  let b = distinct.0 in ground (arith, text_eq_iff id item.evidence_id),
            ),
          )),
    )
  where
    absent :
        (member item.evidence_id (ids_of items) ≡ true → ⊥)
        → member item.evidence_id (ids_of items) ≡ false
    absent h = ground arith

-- Each outcome, and each item of it, is from the source of its collector.
abbrev pub FromCollectors : List (EvidenceSourceType × SourceCollectionResult) → Type 0
FromCollectors [] = Unit
FromCollectors ((source, outcome) ∷ pairs) =
    ((outcome.source_type ≡ source) × FromSource source outcome.evidence) × FromCollectors pairs

abbrev pub outcomes_of :
    List (EvidenceSourceType × SourceCollectionResult) → List SourceCollectionResult
outcomes_of [] = []
outcomes_of ((source, outcome) ∷ pairs) = outcome ∷ outcomes_of pairs

check_outcomes_lem :
    (seen : List Text) (pairs : List (EvidenceSourceType × SourceCollectionResult))
    → ((check_outcomes seen pairs ≡ ok (outcomes_of pairs))
        × FromCollectors pairs
        × NewIds seen (flatten_evidence (outcomes_of pairs)))
      ⊎ (¬ (FromCollectors pairs × NewIds seen (flatten_evidence (outcomes_of pairs)))
          × (e : AggregationError) × (check_outcomes seen pairs ≡ err e))
unfolding check_outcomes flatten_evidence
check_outcomes_lem seen [] = inl (refl, tt, tt)
check_outcomes_lem seen ((source, outcome) ∷ pairs) =
    elim (Bool-cases (source_eq outcome.source_type source)) [
      | inr a ↦ inr (
        (λ (f, n). (let e = (source_eq_iff outcome.source_type source).1 f.0.0 in cc)),
        outcome_source_mismatch source outcome.source_type,
        rw a,
      )
      | inl a ↦ elim (check_items_lem source seen outcome.evidence) [
        | inr (bad, e, h) ↦
            inr (
              (λ (f, n). bad (f.0.1, ((NewIds-append seen outcome.evidence _).0 n).0)),
              e,
              rw (a, h),
            )
        | inl (h, from, new) ↦ elim (check_outcomes_lem (seen_after seen outcome.evidence) pairs) [
          | inr (bad, e, k) ↦ inr (
            (λ (f, n). bad (f.1, ((NewIds-append seen outcome.evidence _).0 n).1)),
            e,
            rw (a, h, k),
          )
          | inl (k, f, n) ↦ inl (
            rw (a, h, k),
            (((source_eq_iff outcome.source_type source).0 a, from), f),
            (NewIds-append seen outcome.evidence _).1 (new, n),
          )
        ]
      ]
    ]

module _ (collectors : List Collector) (investigation_id correlation_key : Text) (now : ℕ) where
  -- What a collector returned for the trimmed identifiers; where it raised, a failed outcome of its
  -- own source, without evidence.
  abbrev pub outcome_of : Collector → SourceCollectionResult
  outcome_of collector = elim (collector.collect (strip investigation_id) (strip correlation_key)) [
    | some outcome ↦ outcome
    | none ↦ record {
      source_type = collector.source_type;
      status = failed;
      evidence = [];
      error_code = some (codes "SOURCE_EXECUTION_FAILED");
      error_message = some (codes "An unexpected error occurred during source collection.");
      collected_at = now;
    }
  ]

  -- The outcome, and each item of it, is of the collector's source.
  abbrev pub IsOwn : Collector → Type 0
  IsOwn collector =
      ((outcome_of collector).source_type ≡ collector.source_type)
      × FromSource collector.source_type (outcome_of collector).evidence

  abbrev pub IsCoherent : Type 0
  IsCoherent =
      All IsOwn collectors × Distinct (ids_of (flatten_evidence (map outcome_of collectors)))

  collect_safe-outcome_of :
      (c : Collector)
      → collect_safe now (strip investigation_id) (strip correlation_key) c ≡ outcome_of c
  unfolding collect_safe failed_outcome
  collect_safe-outcome_of c = refl

  outcomes_of-gathered :
      (cs : List Collector)
      → outcomes_of (gathered now (strip investigation_id) (strip correlation_key) cs)
        ≡ map outcome_of cs
  unfolding gathered
  outcomes_of-gathered [] = refl
  outcomes_of-gathered (c ∷ cs) = ap₂ ◌∷◌ (collect_safe-outcome_of c) (outcomes_of-gathered cs)

  FromCollectors-gathered :
      (cs : List Collector)
      → FromCollectors (gathered now (strip investigation_id) (strip correlation_key) cs)
        ↔ All IsOwn cs
  unfolding gathered
  FromCollectors-gathered [] = ((λ f. f), (λ f. f))
  FromCollectors-gathered (c ∷ cs) =
      let (to, from) = FromCollectors-gathered cs in
      let e = collect_safe-outcome_of c in
      ((λ (h, f). (rw (sym e) h, to f)), (λ (h, f). (rw e h, from f)))

  -- For identifiers that are not blank, aggregation returns exactly if every outcome and every
  -- evidence item is from its collector's source and no evidence identifier occurs twice over all
  -- the sources. It then returns one outcome for each collector, in registration order, a
  -- collector that raised giving a failed outcome of its source without evidence. Otherwise it
  -- raises.
  pub aggregate_lem :
      is_blank investigation_id ≡ false
      → is_blank correlation_key ≡ false
      → (IsCoherent
          × (aggregate collectors investigation_id correlation_key now
              ≡ ok (record {
                investigation_id = strip investigation_id;
                correlation_key = strip correlation_key;
                source_outcomes = map outcome_of collectors;
                collected_at = now;
              })))
        ⊎ (¬ IsCoherent
            × (e : AggregationError) × (aggregate collectors investigation_id correlation_key now
                ≡ err e))
  unfolding aggregate
  aggregate_lem p q =
      let pairs = gathered now (strip investigation_id) (strip correlation_key) collectors in
      let g = outcomes_of-gathered collectors in
      let (own, given) = FromCollectors-gathered collectors in
      let (to, from) = NewIds-iff [] (flatten_evidence (map outcome_of collectors)) in
      elim (check_outcomes_lem [] pairs) [
        | inl (h, f, n) ↦ inl ((own f, (to (rw g at n)).0), rw (p, q, h, g))
        | inr (bad, e, h) ↦ inr (
          (λ (f, d). bad (given f, rw g (from (d, λ id m. unfold member in refl)))),
          e,
          rw (p, q, h),
        )
      ]

-- A collector that raises contributes an outcome with status failed, its own source type and no
-- evidence, which satisfies the invariants of its model.
collect_safe_raised :
    (now : ℕ) (inv_id corr_key : Text) (collector : Collector)
    → collector.collect inv_id corr_key ≡ none
    → (valid_source_result (collect_safe now inv_id corr_key collector) ≡ true)
      × ((collect_safe now inv_id corr_key collector).source_type ≡ collector.source_type)
      × ((collect_safe now inv_id corr_key collector).evidence ≡ [])
unfolding collect_safe valid_source_result is_blank
collect_safe_raised now inv_id corr_key collector h =
    (rw (h, collect_safe), rw (h, collect_safe), rw (h, collect_safe))
