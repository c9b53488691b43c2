-- ===== src/Examples/Timelines.antt =====
-- A timeline of platform_investigation/timeline.py over two items.
use superoffice_ai_support_m.Common.{
  ℕ, ◌≡◌, refl, [], ◌∷◌, map, keep, leb, length, codes, is_blank, member, text_eq, if◌then◌else◌,
}
use superoffice_ai_support_m.Investigation.Models.{
  CorrelationReference, DiagnosticEvidence, EvidenceAggregationResult, evidence_of,
}
use superoffice_ai_support_m.Investigation.Timeline.{
  InvestigationTimeline, project_event, build_timeline, ref_eq,
}
use superoffice_ai_support_m.Investigation.Timeline.Order.{
  Chronological, at_time, build_timeline-order,
}
use superoffice_ai_support_m.Investigation.Timeline.Groups.{
  groups_of, carriers, build_timeline-groups,
}
use superoffice_ai_support_m.Examples.Findings.{deadlock, mssql_outcome, collected}

abbrev ticket : CorrelationReference
ticket = record { namespace = codes "ticket"; value = codes "9" }

abbrev late : DiagnosticEvidence
late = record deadlock {
  evidence_id = codes "ev-2";
  timestamp = 7;
  correlation_references = ticket ∷ [];
}

abbrev early : DiagnosticEvidence
early = record deadlock { correlation_references = ticket ∷ [] }

abbrev both : EvidenceAggregationResult
both = record collected {
  source_outcomes = record mssql_outcome { evidence = late ∷ early ∷ [] } ∷ [];
}

abbrev both_timeline : InvestigationTimeline
both_timeline = record {
  investigation_id = codes "inv-1";
  events = project_event early ∷ project_event late ∷ [];
  correlation_groups =
      record { correlation_reference = ticket; evidence_ids = codes "ev-2" ∷ codes "ev-1" ∷ [] }
      ∷ [];
}

build_timeline-order_example :
    Chronological 0 both_timeline.events
    × ((t : ℕ)
        → keep (at_time t) both_timeline.events
          ≡ keep (at_time t) (map project_event (evidence_of both)))
unfolding build_timeline evidence_of is_blank ref_eq text_eq member
build_timeline-order_example = build_timeline-order both both_timeline refl

build_timeline-groups_example : groups_of ticket both_timeline.correlation_groups ≡ (
    let ids = carriers ticket (evidence_of both) [] in if leb 2 (length ids) then ids ∷ [] else [])
unfolding build_timeline evidence_of is_blank ref_eq text_eq member
build_timeline-groups_example = build_timeline-groups both both_timeline ticket refl
