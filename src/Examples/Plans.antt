-- ===== src/Examples/Plans.antt =====
-- Runs of platform_investigation/orchestrator.py on a small store.
use superoffice_ai_support_m.Common.{
  ◌-◌, ◌≡◌, refl, min, map, some, none, List, [], ◌∷◌, Text, codes, lookup, text_eq, is_blank,
  strip, pos, put,
}
use superoffice_ai_support_m.Investigation.Models.{InvestigationPlan}
use superoffice_ai_support_m.Investigation.Orchestrator.{
  Store, StepDetails, new_plan, create_plan, conclude_investigation, in_step_range, steps_limit,
}
use superoffice_ai_support_m.Investigation.Orchestrator.Invariant.{
  IsValidStore, IsValidStore-nil, create_plan-IsValidStore,
}
use superoffice_ai_support_m.Investigation.Orchestrator.Lifecycle.{
  Call, create, advance, conclude, abort, run_call, run_calls, run_calls-IsValidStore, Follows,
  run_call-Follows,
}
use superoffice_ai_support_m.Investigation.Orchestrator.Budget.{
  StepRequest, advances, advances-eq-min,
}
use superoffice_ai_support_m.Investigation.Orchestrator.Conclusion.{
  confirm_one, last_description, conclusion, conclude_investigation_lem,
}

abbrev plan_id : Text
plan_id = codes "inv-1"

abbrev start : Call
start = create (pos 10) (codes "pool exhausted") (some (pos 2)) plan_id (codes "hyp-1") 5

abbrev a_step : StepDetails
a_step = record {
  action_taken = codes "probe";
  summary = codes "checked the pool";
  severity = codes "LOW";
  correlation_keys = [];
  collected_evidence_ids = [];
}

abbrev some_calls : List Call
some_calls =
    start
    ∷ advance plan_id none a_step 6
    ∷ advance plan_id none a_step 7
    ∷ advance plan_id none a_step 8
    ∷ conclude plan_id (codes "hyp-1") 9
    ∷ []

run_calls-IsValidStore_example : IsValidStore (run_calls [] some_calls)
run_calls-IsValidStore_example = run_calls-IsValidStore [] some_calls IsValidStore-nil

abbrev created : InvestigationPlan
created = new_plan plan_id (codes "hyp-1") (codes "pool exhausted") 2 5

abbrev started : Store
started = (plan_id, created) ∷ []

started-IsValidStore : IsValidStore started
unfolding create_plan is_blank strip in_step_range steps_limit put
started-IsValidStore =
    create_plan-IsValidStore (pos 10) [] (codes "pool exhausted") (some (pos 2)) plan_id
      (codes "hyp-1") 5 IsValidStore-nil

run_call-Follows_example :
    Follows (run_call started (abort plan_id (codes "no access") 6)).0 plan_id created
unfolding lookup text_eq
run_call-Follows_example =
    run_call-Follows started started-IsValidStore plan_id created refl
      (abort plan_id (codes "no access") 6) tt

abbrev request : StepRequest
request = record { hypothesis = none; details = a_step; now = 6 }

advances-eq-min_example :
    advances started plan_id (request ∷ request ∷ request ∷ [])
    ≡ min 3 (created.max_steps - created.current_step_count)
unfolding lookup text_eq new_plan
advances-eq-min_example =
    advances-eq-min started plan_id created (request ∷ request ∷ request ∷ []) started-IsValidStore
      refl refl

conclude_investigation_lem_example :
    conclude_investigation started plan_id (codes "hyp-1") 9
    ≡ conclusion started plan_id
        (codes "hyp-1")
        9
        created
        (map (confirm_one (codes "hyp-1")) created.hypotheses)
        (last_description (codes "hyp-1") none created.hypotheses)
unfolding lookup text_eq new_plan
conclude_investigation_lem_example =
    conclude_investigation_lem started plan_id (codes "hyp-1") 9 created refl refl
