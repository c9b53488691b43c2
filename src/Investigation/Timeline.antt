-- ===== src/Investigation/Timeline.antt =====
-- platform_investigation/timeline.py: the chronological view of the collected evidence, and the
-- groups of evidence items that share a correlation reference. The dict of references keeps
-- insertion order, as a list of entries; its key is the reference itself. sorted() is the stable
-- insertion sort.
pub mod Order
pub mod Groups
use superoffice_ai_support_m.Common.{
  ℕ, Bool, true, false, ◌&&◌, List, [], ◌∷◌, ◌++◌, map, Text, strip, is_blank, text_eq, member, leb,
  length, Result, ok, err, if◌then◌else◌,
}
use superoffice_ai_support_m.Investigation.Models.{
  EvidenceSourceType, CorrelationReference, DiagnosticEvidence, EvidenceAggregationResult,
  evidence_of,
}

pub record TimelineEvent : Type 0 where
  pub evidence_id : Text
  pub source_type : EvidenceSourceType
  pub timestamp : ℕ
  pub title : Text
  pub correlation_references : List CorrelationReference
  pub tags : List Text

pub record CorrelationGroup : Type 0 where
  pub correlation_reference : CorrelationReference
  pub evidence_ids : List Text

pub record InvestigationTimeline : Type 0 where
  pub investigation_id : Text
  pub events : List TimelineEvent
  pub correlation_groups : List CorrelationGroup

pub data TimelineError : Type 0 where
  empty_investigation_id : TimelineError

abbrev pub project_event : DiagnosticEvidence → TimelineEvent
project_event ev = record {
  evidence_id = ev.evidence_id;
  source_type = ev.source_type;
  timestamp = ev.timestamp;
  title = ev.title;
  correlation_references = ev.correlation_references;
  tags = ev.tags;
}

unfoldable pub insert_event : TimelineEvent → List TimelineEvent → List TimelineEvent
insert_event event [] = event ∷ []
insert_event event (next ∷ events) =
    let rest = insert_event event events in
    if leb event.timestamp next.timestamp then event ∷ next ∷ events else next ∷ rest

-- sorted(events, key=timestamp)
unfoldable pub sort_events : List TimelineEvent → List TimelineEvent
unfolding insert_event
sort_events [] = []
sort_events (event ∷ events) = insert_event event (sort_events events)

-- (namespace, value) == (namespace, value)
unfoldable pub ref_eq : CorrelationReference → CorrelationReference → Bool
ref_eq a b = text_eq a.namespace b.namespace && text_eq a.value b.value

abbrev pub RefIndex : Type 0
RefIndex = List (CorrelationReference × List Text)

-- An identifier is added once.
unfoldable pub add_once : Text → List Text → List Text
add_once evidence_id ids = if member evidence_id ids then ids else ids ++ evidence_id ∷ []

unfoldable pub add_reference : Text → CorrelationReference → RefIndex → RefIndex
unfolding add_once
add_reference evidence_id ref [] = (ref, evidence_id ∷ []) ∷ []
add_reference evidence_id ref ((known, ids) ∷ index) =
    let rest = add_reference evidence_id ref index in
    if ref_eq known ref then (known, add_once evidence_id ids) ∷ index else (known, ids) ∷ rest

unfoldable pub index_references : Text → List CorrelationReference → RefIndex → RefIndex
unfolding add_reference
index_references evidence_id [] index = index
index_references evidence_id (ref ∷ refs) index =
    index_references evidence_id refs (add_reference evidence_id ref index)

unfoldable pub index_evidence : List DiagnosticEvidence → RefIndex → RefIndex
unfolding index_references
index_evidence [] index = index
index_evidence (ev ∷ evidence) index =
    index_evidence evidence (index_references ev.evidence_id ev.correlation_references index)

-- The entries with at least two identifiers.
unfoldable pub make_groups : RefIndex → List CorrelationGroup
make_groups [] = []
make_groups ((ref, ids) ∷ index) =
    let rest = make_groups index in
    if leb 2 (length ids)
    then record { correlation_reference = ref; evidence_ids = ids } ∷ rest
    else rest

unfoldable pub build_timeline :
    EvidenceAggregationResult → Result TimelineError InvestigationTimeline
unfolding sort_events index_evidence make_groups
build_timeline aggregation_result =
    let evidence = evidence_of aggregation_result in
    if is_blank aggregation_result.investigation_id
    then err empty_investigation_id
    else ok (record {
      investigation_id = strip aggregation_result.investigation_id;
      events = sort_events (map project_event evidence);
      correlation_groups = make_groups (index_evidence evidence []);
    })
