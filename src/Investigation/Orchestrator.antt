-- ===== src/Investigation/Orchestrator.antt =====
-- platform_investigation/orchestrator.py over the store of platform_investigation/store.py. The
-- clock readings and the identifiers of uuid4 are arguments. advance_step, conclude_investigation
-- and abort_investigation hold the engine's lock from their read to their write, and every copy
-- that the store makes is deep, so each call is one step from store to store.
pub mod Plans
pub mod Invariant
pub mod Lifecycle
pub mod Budget
pub mod Conclusion
use superoffice_ai_support_m.Common.{
  ℕ, suc, ◌+◌, Bool, true, false, ◌&&◌, Option, none, some, List, [], ◌∷◌, ◌++◌, Text, codes, strip,
  is_blank, text_eq, Dict, lookup, put, ℤ, pos, negsuc, leb, map, Result, ok, err, if◌then◌else◌,
}
use superoffice_ai_support_m.Investigation.Models.{
  InvestigationStatus, initialized, in_progress, concluded, aborted, step_limit_exceeded, proposed,
  confirmed, Hypothesis, InvestigationStep, InvestigationPlan,
}

pub data InvestigationError : Type 0 where
  empty_hypothesis max_steps_out_of_range : InvestigationError
  investigation_not_found : Text → InvestigationError
  invalid_investigation_state : Text → InvestigationStatus → InvestigationError
  step_limit : Text → ℕ → InvestigationError
  hypothesis_not_found : Text → Text → InvestigationError

-- InMemoryInvestigationStore: a plan is saved under its own identifier.
abbrev pub Store : Type 0
Store = Dict InvestigationPlan

unfoldable pub get_plan : Store → Text → Option InvestigationPlan
get_plan store plan_id = lookup plan_id store

unfoldable pub save_plan : Store → InvestigationPlan → Store
save_plan store plan = put plan.investigation_id plan store

-- What a call leaves in the store, and what it returns or raises.
abbrev pub Outcome : Type 0
Outcome = Store × Result InvestigationError InvestigationPlan

-- 1 <= steps_limit <= 25
unfoldable pub in_step_range : ℤ → Option ℕ
in_step_range (pos n) = if leb 1 n && leb n 25 then some n else none
in_step_range (negsuc n) = none

unfoldable pub steps_limit : ℤ → Option ℤ → ℤ
steps_limit default_max_steps none = default_max_steps
steps_limit default_max_steps (some max_steps) = max_steps

unfoldable pub new_plan : Text → Text → Text → ℕ → ℕ → InvestigationPlan
new_plan investigation_id hypothesis_id description limit now = record {
  investigation_id = investigation_id;
  status = initialized;
  max_steps = limit;
  current_step_count = 0;
  steps = [];
  hypotheses =
      record {
        hypothesis_id = hypothesis_id;
        description = description;
        status = proposed;
        supporting_evidence_ids = [];
        refuting_evidence_ids = [];
      }
      ∷ [];
  concluded_root_cause = none;
  created_at = now;
  updated_at = now;
}

create_within : Store → Text → Text → Text → ℕ → Option ℕ → Outcome
unfolding new_plan save_plan
create_within store investigation_id hypothesis_id description now none =
    (store, err max_steps_out_of_range)
create_within store investigation_id hypothesis_id description now (some limit) =
    let plan = new_plan investigation_id hypothesis_id description limit now in
    (save_plan store plan, ok plan)

unfoldable pub create_plan : ℤ → Store → Text → Option ℤ → Text → Text → ℕ → Outcome
unfolding create_within
create_plan default_max_steps store initial_hypothesis max_steps investigation_id hypothesis_id
      now =
    if is_blank initial_hypothesis
    then (store, err empty_hypothesis)
    else create_within store investigation_id hypothesis_id (strip initial_hypothesis) now
        (in_step_range (steps_limit default_max_steps max_steps))

abbrev pub is_terminal : InvestigationStatus → Bool
is_terminal concluded = true
is_terminal aborted = true
is_terminal _ = false

abbrev pub is_limit_exceeded : InvestigationStatus → Bool
is_limit_exceeded step_limit_exceeded = true
is_limit_exceeded _ = false

-- The hypothesis of the same identifier is replaced where it stands, the first if there are
-- several; a new one is appended.
unfoldable pub upsert_hypothesis : List Hypothesis → Hypothesis → List Hypothesis
upsert_hypothesis [] hypothesis = hypothesis ∷ []
upsert_hypothesis (existing ∷ rest) hypothesis =
    if text_eq existing.hypothesis_id hypothesis.hypothesis_id
    then hypothesis ∷ rest
    else existing ∷ upsert_hypothesis rest hypothesis

unfoldable pub updated_hypotheses : List Hypothesis → Option Hypothesis → List Hypothesis
unfolding upsert_hypothesis
updated_hypotheses hypotheses none = hypotheses
updated_hypotheses hypotheses (some hypothesis) = upsert_hypothesis hypotheses hypothesis

-- The keyword arguments of advance_step.
pub record StepDetails : Type 0 where
  pub action_taken : Text
  pub summary : Text
  pub severity : Text
  pub correlation_keys : List Text
  pub collected_evidence_ids : List Text

-- InvestigationStep trims its texts.
unfoldable pub new_step : ℕ → StepDetails → ℕ → InvestigationStep
new_step step_number details timestamp = record {
  step_number = step_number;
  action_taken = strip details.action_taken;
  summary = strip details.summary;
  severity = strip details.severity;
  correlation_keys = map strip details.correlation_keys;
  collected_evidence_ids = map strip details.collected_evidence_ids;
  timestamp = timestamp;
}

unfoldable pub advanced :
    InvestigationPlan → Option Hypothesis → StepDetails → ℕ → InvestigationPlan
unfolding new_step updated_hypotheses
advanced plan hypothesis details now =
    let next_step_num = plan.current_step_count + 1 in
    record plan {
      status = in_progress;
      current_step_count = next_step_num;
      steps = plan.steps ++ new_step next_step_num details now ∷ [];
      hypotheses = updated_hypotheses plan.hypotheses hypothesis;
      updated_at = now;
    }

unfoldable pub limited : InvestigationPlan → ℕ → InvestigationPlan
limited plan now = record plan { status = step_limit_exceeded; updated_at = now }

-- The step limit is recorded in the plan before the error is raised, once.
advance_found :
    Store → Text → Option Hypothesis → StepDetails → ℕ → Option InvestigationPlan → Outcome
unfolding advanced limited save_plan
advance_found store plan_id hypothesis details now none =
    (store, err (investigation_not_found plan_id))
advance_found store plan_id hypothesis details now (some plan) =
    if is_terminal plan.status
    then (store, err (invalid_investigation_state plan_id plan.status))
    else if leb plan.max_steps plan.current_step_count
    then (
      (if is_limit_exceeded plan.status then store else save_plan store (limited plan now)),
      err (step_limit plan_id plan.max_steps),
    )
    else let plan' = advanced plan hypothesis details now in (save_plan store plan', ok plan')

unfoldable pub advance_step : Store → Text → Option Hypothesis → StepDetails → ℕ → Outcome
unfolding advance_found get_plan
advance_step store plan_id hypothesis details now =
    advance_found store plan_id hypothesis details now (get_plan store plan_id)

-- The loop of conclude_investigation: every hypothesis of that identifier is confirmed, and the
-- last one is the match.
unfoldable pub confirm :
    Text → Option Hypothesis → List Hypothesis → Option Hypothesis × List Hypothesis
confirm final_id matched [] = (matched, [])
confirm final_id matched (hyp ∷ hyps) =
    let hit = text_eq hyp.hypothesis_id final_id in
    let confirmed_hyp : Hypothesis = record hyp { status = confirmed } in
    let (last, rest) = confirm final_id (if hit then some confirmed_hyp else matched) hyps in
    (last, (if hit then confirmed_hyp else hyp) ∷ rest)

unfoldable pub concluded_plan : InvestigationPlan → List Hypothesis → Text → ℕ → InvestigationPlan
concluded_plan plan hypotheses root_cause now = record plan {
  status = concluded;
  hypotheses = hypotheses;
  concluded_root_cause = some root_cause;
  updated_at = now;
}

conclude_matched :
    Store → Text → Text → ℕ → InvestigationPlan → Option Hypothesis × List Hypothesis → Outcome
unfolding concluded_plan save_plan
conclude_matched store plan_id final_id now plan (none, hypotheses) =
    (store, err (hypothesis_not_found plan_id final_id))
conclude_matched store plan_id final_id now plan (some hyp, hypotheses) =
    let plan' = concluded_plan plan hypotheses hyp.description now in
    (save_plan store plan', ok plan')

conclude_found : Store → Text → Text → ℕ → Option InvestigationPlan → Outcome
unfolding conclude_matched confirm
conclude_found store plan_id final_id now none = (store, err (investigation_not_found plan_id))
conclude_found store plan_id final_id now (some plan) =
    if is_terminal plan.status
    then (store, err (invalid_investigation_state plan_id plan.status))
    else conclude_matched store plan_id final_id now plan (confirm final_id none plan.hypotheses)

unfoldable pub conclude_investigation : Store → Text → Text → ℕ → Outcome
unfolding conclude_found get_plan
conclude_investigation store plan_id final_hypothesis_id now =
    conclude_found store plan_id final_hypothesis_id now (get_plan store plan_id)

unfoldable pub aborted_plan : InvestigationPlan → Text → ℕ → InvestigationPlan
aborted_plan plan reason now = record plan {
  status = aborted;
  concluded_root_cause = some (codes "Aborted: " ++ reason);
  updated_at = now;
}

abort_found : Store → Text → Text → ℕ → Option InvestigationPlan → Outcome
unfolding aborted_plan save_plan
abort_found store plan_id reason now none = (store, err (investigation_not_found plan_id))
abort_found store plan_id reason now (some plan) =
    if is_terminal plan.status
    then (store, err (invalid_investigation_state plan_id plan.status))
    else let plan' = aborted_plan plan reason now in (save_plan store plan', ok plan')

unfoldable pub abort_investigation : Store → Text → Text → ℕ → Outcome
unfolding abort_found get_plan
abort_investigation store plan_id reason now =
    abort_found store plan_id reason now (get_plan store plan_id)
