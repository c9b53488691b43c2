-- ===== src/Investigation.antt =====
-- The generic investigation layer, src/shared/platform-investigation: plans and their life cycle,
-- collection of evidence from several sources, evaluation of hypotheses, and the timeline.
pub mod Models
pub mod Orchestrator
pub mod Evaluator
pub mod Aggregator
pub mod Timeline
