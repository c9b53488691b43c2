-- ===== src/Investigation/Orchestrator/Conclusion.antt =====
-- What conclude_investigation of platform_investigation/orchestrator.py writes.
use superoffice_ai_support_m.Common.{
  ℕ, ◌≡◌, refl, ap₂, ◌∙◌, false, Option, none, some, List, [], ◌∷◌, map, Text, text_eq, lookup, ok,
  err, if◌then◌else◌, arith,
}
use superoffice_ai_support_m.Investigation.Models.{
  Hypothesis, InvestigationPlan, confirmed, concluded,
}
use superoffice_ai_support_m.Investigation.Orchestrator.{
  Store, Outcome, save_plan, get_plan, is_terminal, confirm, conclude_matched, conclude_found,
  conclude_investigation, hypothesis_not_found, concluded_plan,
}

-- The hypothesis after the conclusion.
pub confirm_one : Text → Hypothesis → Hypothesis
confirm_one id hyp = if text_eq hyp.hypothesis_id id then record hyp { status = confirmed } else hyp

-- The description of the last hypothesis of that identifier, and `fallback` if there is none.
pub last_description : Text → Option Text → List Hypothesis → Option Text
last_description id fallback [] = fallback
last_description id fallback (hyp ∷ hyps) =
    last_description id (if text_eq hyp.hypothesis_id id then some hyp.description else fallback)
      hyps

abbrev description_of : Option Hypothesis → Option Text
description_of none = none
description_of (some hyp) = some hyp.description

confirm_lem :
    (id : Text) (hyps : List Hypothesis) (matched : Option Hypothesis)
    → ((confirm id matched hyps).1 ≡ map (confirm_one id) hyps)
      × (description_of (confirm id matched hyps).0
          ≡ last_description id (description_of matched) hyps)
unfolding confirm last_description confirm_one
confirm_lem id [] matched = (refl, refl)
confirm_lem id (hyp ∷ hyps) matched = ground (
  arith,
  confirm_lem id hyps
      (if text_eq hyp.hypothesis_id id then some (record hyp { status = confirmed }) else matched),
)

-- The outcome for hypotheses and a root cause, if there is one.
abbrev pub conclusion :
    Store → Text → Text → ℕ → InvestigationPlan → List Hypothesis → Option Text → Outcome
conclusion store id final_id now plan hypotheses none =
    (store, err (hypothesis_not_found id final_id))
conclusion store id final_id now plan hypotheses (some cause) =
    let plan' : InvestigationPlan = record plan {
      status = concluded;
      hypotheses = hypotheses;
      concluded_root_cause = some cause;
      updated_at = now;
    } in
    (save_plan store plan', ok plan')

conclude_matched-conclusion :
    (store : Store) (id final_id : Text) (now : ℕ) (plan : InvestigationPlan)
    (match : Option Hypothesis × List Hypothesis)
    → conclude_matched store id final_id now plan match
      ≡ conclusion store id final_id now plan match.1 (description_of match.0)
unfolding conclude_matched concluded_plan
conclude_matched-conclusion store id final_id now plan (none, hypotheses) = refl
conclude_matched-conclusion store id final_id now plan (some hyp, hypotheses) = refl

-- Concluding a stored plan that is neither concluded nor aborted: if none of its hypotheses has
-- the given identifier the call raises and the store stays as it is; else the plan that is saved
-- and returned is concluded, its root cause is the description of the last hypothesis of that
-- identifier, all hypotheses of that identifier are confirmed, and nothing but its time stamp
-- changes besides.
pub conclude_investigation_lem :
    (store : Store) (id final_id : Text) (now : ℕ) (plan : InvestigationPlan)
    → lookup id store ≡ some plan
    → is_terminal plan.status ≡ false
    → conclude_investigation store id final_id now
      ≡ conclusion store id final_id now plan
          (map (confirm_one final_id) plan.hypotheses)
          (last_description final_id none plan.hypotheses)
unfolding conclude_investigation conclude_found get_plan
conclude_investigation_lem store id final_id now plan h active =
    let (all, last) = confirm_lem final_id plan.hypotheses none in
    rw (h, conclude_found, active)
      (conclude_matched-conclusion store id final_id now plan
          (confirm final_id none plan.hypotheses)
        ∙ ap₂ (conclusion store id final_id now plan) all last)
