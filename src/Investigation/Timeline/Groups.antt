-- ===== src/Investigation/Timeline/Groups.antt =====
-- The correlation groups of platform_investigation/timeline.py.
use superoffice_ai_support_m.Common.{
  ◌≡◌, refl, ◌↔◌, Bool, true, false, ◌||◌, List, [], ◌∷◌, any, Text, text_eq_iff, member,
  member-append, is_blank, leb, length, ok, if◌then◌else◌, arith, Bool-cases, inl, inr,
}
use superoffice_ai_support_m.Investigation.Models.{
  CorrelationReference, DiagnosticEvidence, EvidenceAggregationResult, evidence_of,
}
use superoffice_ai_support_m.Investigation.Timeline.{
  CorrelationGroup, InvestigationTimeline, RefIndex, ref_eq, add_once, add_reference,
  index_references, index_evidence, make_groups, build_timeline,
}

ref_eq_iff : (a b : CorrelationReference) → (ref_eq a b ≡ true) ↔ (a ≡ b)
unfolding ref_eq
ref_eq_iff a b = (
  (λ h. ground (arith, text_eq_iff a.namespace b.namespace, text_eq_iff a.value b.value)),
  (λ e. rw e (ground (arith, text_eq_iff b.namespace b.namespace, text_eq_iff b.value b.value))),
)

-- The item carries the reference.
unfoldable pub carries : CorrelationReference → DiagnosticEvidence → Bool
carries ref ev = any (λ r. ref_eq r ref) ev.correlation_references

-- The specification: the identifiers of the items that carry a reference, each once, in the order
-- of the evidence, after those of `ids`.
unfoldable pub carriers : CorrelationReference → List DiagnosticEvidence → List Text → List Text
carriers ref [] ids = ids
carriers ref (ev ∷ evidence) ids =
    carriers ref evidence (if carries ref ev then add_once ev.evidence_id ids else ids)

-- The identifiers that an index has for a reference.
ids_in : CorrelationReference → RefIndex → List Text
ids_in ref [] = []
ids_in ref ((known, ids) ∷ index) =
    let rest = ids_in ref index in if ref_eq known ref then ids else rest

ids_in-add_reference :
    (ref added : CorrelationReference) (id : Text) (index : RefIndex)
    → ids_in ref (add_reference id added index)
      ≡ (if ref_eq added ref then add_once id (ids_in ref index) else ids_in ref index)
unfolding ids_in add_reference add_once member
ids_in-add_reference ref added id [] = ground arith
ids_in-add_reference ref added id ((known, ids) ∷ index) = ground (
  arith,
  ids_in-add_reference ref added id index,
  ref_eq_iff known added,
  ref_eq_iff added ref,
  ref_eq_iff known ref,
)

add_once_twice : (id : Text) (ids : List Text) → add_once id (add_once id ids) ≡ add_once id ids
unfolding add_once member
add_once_twice id ids = ground (arith, member-append id ids (id ∷ []), text_eq_iff id id)

ids_in-index_references :
    (ref : CorrelationReference) (id : Text) (refs : List CorrelationReference) (index : RefIndex)
    → ids_in ref (index_references id refs index)
      ≡ (if any (λ r. ref_eq r ref) refs then add_once id (ids_in ref index) else ids_in ref index)
unfolding index_references
ids_in-index_references ref id [] index = refl
ids_in-index_references ref id (r ∷ refs) index = ground (
  arith,
  ids_in-index_references ref id refs (add_reference id r index),
  ids_in-add_reference ref r id index,
  add_once_twice id (ids_in ref index),
)

ids_in-index_evidence :
    (ref : CorrelationReference) (evidence : List DiagnosticEvidence) (index : RefIndex)
    → ids_in ref (index_evidence evidence index) ≡ carriers ref evidence (ids_in ref index)
unfolding index_evidence carriers carries
ids_in-index_evidence ref [] index = refl
ids_in-index_evidence ref (ev ∷ evidence) index =
    rw (ids_in-index_evidence ref evidence, ids_in-index_references)

-- A reference has at most one entry.
has_ref : CorrelationReference → RefIndex → Bool
has_ref ref [] = false
has_ref ref ((known, ids) ∷ index) = ref_eq known ref || has_ref ref index

abbrev UniqueRefs : RefIndex → Type 0
UniqueRefs [] = Unit
UniqueRefs ((known, ids) ∷ index) = (has_ref known index ≡ false) × UniqueRefs index

has_ref-add_reference :
    (ref added : CorrelationReference) (id : Text) (index : RefIndex)
    → has_ref ref (add_reference id added index) ≡ (has_ref ref index || ref_eq added ref)
unfolding has_ref add_reference
has_ref-add_reference ref added id [] = ground arith
has_ref-add_reference ref added id ((known, ids) ∷ index) = ground (
  arith,
  has_ref-add_reference ref added id index,
  ref_eq_iff known added,
  ref_eq_iff added ref,
  ref_eq_iff known ref,
)

add_reference-UniqueRefs :
    (added : CorrelationReference) (id : Text) (index : RefIndex)
    → UniqueRefs index
    → UniqueRefs (add_reference id added index)
unfolding add_reference has_ref
add_reference-UniqueRefs added id [] u = (refl, tt)
add_reference-UniqueRefs added id ((known, ids) ∷ index) u =
    elim (Bool-cases (ref_eq known added)) [
      | inl e ↦ rw e u
      | inr e ↦ rw e (
        ground (
          arith,
          has_ref-add_reference known added id index,
          ref_eq_iff known added,
          ref_eq_iff added known,
        ),
        add_reference-UniqueRefs added id index u.1,
      )
    ]

index_references-UniqueRefs :
    (id : Text) (refs : List CorrelationReference) (index : RefIndex)
    → UniqueRefs index
    → UniqueRefs (index_references id refs index)
unfolding index_references
index_references-UniqueRefs id [] index u = u
index_references-UniqueRefs id (r ∷ refs) index u =
    index_references-UniqueRefs id refs (add_reference id r index)
      (add_reference-UniqueRefs r id index u)

index_evidence-UniqueRefs :
    (evidence : List DiagnosticEvidence) (index : RefIndex)
    → UniqueRefs index
    → UniqueRefs (index_evidence evidence index)
unfolding index_evidence
index_evidence-UniqueRefs [] index u = u
index_evidence-UniqueRefs (ev ∷ evidence) index u =
    index_evidence-UniqueRefs evidence
      (index_references ev.evidence_id ev.correlation_references index)
      (index_references-UniqueRefs ev.evidence_id ev.correlation_references index u)

-- The identifiers of the groups of a reference, one list for each group.
unfoldable pub groups_of : CorrelationReference → List CorrelationGroup → List (List Text)
groups_of ref [] = []
groups_of ref (group ∷ groups) =
    let rest = groups_of ref groups in
    if ref_eq group.correlation_reference ref then group.evidence_ids ∷ rest else rest

groups_of_absent :
    (ref : CorrelationReference) (index : RefIndex)
    → has_ref ref index ≡ false
    → groups_of ref (make_groups index) ≡ []
unfolding has_ref groups_of make_groups
groups_of_absent ref [] h = refl
groups_of_absent ref ((known, ids) ∷ index) h = ground (arith, groups_of_absent ref index)

groups_of-make_groups :
    (ref : CorrelationReference) (index : RefIndex)
    → UniqueRefs index
    → groups_of ref (make_groups index)
      ≡ (if leb 2 (length (ids_in ref index)) then ids_in ref index ∷ [] else [])
unfolding groups_of make_groups ids_in
groups_of-make_groups ref [] u = ground arith
groups_of-make_groups ref ((known, ids) ∷ index) u = ground (
  arith,
  groups_of-make_groups ref index u.1,
  groups_of_absent ref index,
  ref_eq_iff known ref,
  u.0,
)

-- For every correlation reference, let `ids` be the identifiers of the evidence items that carry
-- it, each once and in the order of the evidence. The timeline has exactly one group for the
-- reference, with these identifiers, if there are at least two of them, and none otherwise.
pub build_timeline-groups :
    (result : EvidenceAggregationResult) (timeline : InvestigationTimeline)
    (ref : CorrelationReference)
    → build_timeline result ≡ ok timeline
    → groups_of ref timeline.correlation_groups ≡ (
        let ids = carriers ref (evidence_of result) [] in
        if leb 2 (length ids) then ids ∷ [] else [])
unfolding build_timeline
build_timeline-groups result timeline ref h = elim (Bool-cases (is_blank result.investigation_id)) [
  | inl blank ↦ cc (blank)
  | inr named ↦
      let e : make_groups (index_evidence (evidence_of result) []) ≡ timeline.correlation_groups =
        ground arith in
      rw
        (
          ← e,
          groups_of-make_groups ref (index_evidence (evidence_of result) [])
              (index_evidence-UniqueRefs (evidence_of result) [] tt),
          ids_in-index_evidence ref (evidence_of result) [],
        )
        (unfold ids_in in refl)
]
