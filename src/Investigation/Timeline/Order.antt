-- ===== src/Investigation/Timeline/Order.antt =====
-- The order of the events of platform_investigation/timeline.py.
use superoffice_ai_support_m.Common.{
  ℕ, ◌≤◌, ◌≡◌, refl, Bool, List, [], ◌∷◌, map, keep, leb, ◌==◌, is_blank, ok, arith, Bool-cases,
  inl, inr,
}
use superoffice_ai_support_m.Investigation.Models.{EvidenceAggregationResult, evidence_of}
use superoffice_ai_support_m.Investigation.Timeline.{
  TimelineEvent, InvestigationTimeline, project_event, insert_event, sort_events, build_timeline,
}

-- No event is earlier than `start`, nor than the one before it.
abbrev pub Chronological : ℕ → List TimelineEvent → Type 0
Chronological start [] = Unit
Chronological start (event ∷ events) =
    (start ≤ event.timestamp) × Chronological event.timestamp events

abbrev pub at_time : ℕ → TimelineEvent → Bool
at_time t event = event.timestamp == t

insert_event-Chronological :
    (start : ℕ) (event : TimelineEvent) (events : List TimelineEvent)
    → start ≤ event.timestamp
    → Chronological start events
    → Chronological start (insert_event event events)
unfolding insert_event
insert_event-Chronological start event [] le h = (le, tt)
insert_event-Chronological start event (next ∷ events) le h =
    elim (Bool-cases (leb event.timestamp next.timestamp)) [
      | inl first ↦ rw first (le, (ground arith, h.1))
      | inr later ↦
          rw later (h.0, insert_event-Chronological next.timestamp event events (ground arith) h.1)
    ]

sort_events-Chronological : (events : List TimelineEvent) → Chronological 0 (sort_events events)
unfolding sort_events
sort_events-Chronological [] = tt
sort_events-Chronological (event ∷ events) =
    insert_event-Chronological 0 event (sort_events events) (omega arith)
      (sort_events-Chronological events)

keep-insert_event :
    (t : ℕ) (event : TimelineEvent) (events : List TimelineEvent)
    → keep (at_time t) (insert_event event events) ≡ keep (at_time t) (event ∷ events)
unfolding insert_event
keep-insert_event t event [] = refl
keep-insert_event t event (next ∷ events) = ground (arith, keep-insert_event t event events)

keep-sort_events :
    (t : ℕ) (events : List TimelineEvent)
    → keep (at_time t) (sort_events events) ≡ keep (at_time t) events
unfolding sort_events
keep-sort_events t [] = refl
keep-sort_events t (event ∷ events) =
    ground (arith, keep-insert_event t event (sort_events events), keep-sort_events t events)

-- The events of a timeline are the projected evidence items in chronological order; items of the
-- same time, whatever the time, are all there and in the order in which they were aggregated.
pub build_timeline-order :
    (result : EvidenceAggregationResult) (timeline : InvestigationTimeline)
    → build_timeline result ≡ ok timeline
    → Chronological 0 timeline.events
      × ((t : ℕ)
          → keep (at_time t) timeline.events
            ≡ keep (at_time t) (map project_event (evidence_of result)))
unfolding build_timeline
build_timeline-order result timeline h = elim (Bool-cases (is_blank result.investigation_id)) [
  | inl blank ↦ cc (blank)
  | inr named ↦
      let e : sort_events (map project_event (evidence_of result)) ≡ timeline.events =
        ground arith in
      rw (← e) (
        sort_events-Chronological (map project_event (evidence_of result)),
        λ t. keep-sort_events t (map project_event (evidence_of result)),
      )
]
