-- ===== src/Investigation/Orchestrator/Plans.antt =====
-- What holds of a plan at every stage, in platform_investigation/orchestrator.py.
use superoffice_ai_support_m.Common.{
  ℕ, suc, ◌+◌, ◌≤◌, ◌<◌, ◌≡◌, refl, ap, ◌≢◌, true, false, Option, none, some, List, [], ◌∷◌, ◌++◌,
  Text, ℤ, pos, negsuc, length, length-append, arith,
}
use superoffice_ai_support_m.Investigation.Models.{
  InvestigationStatus, initialized, in_progress, step_limit_exceeded, Hypothesis, InvestigationStep,
  InvestigationPlan,
}
use superoffice_ai_support_m.Investigation.Orchestrator.{
  StepDetails, in_step_range, new_plan, is_terminal, updated_hypotheses, advanced, limited, confirm,
}

-- The steps are numbered from `first` on, without a gap.
abbrev pub Numbered : ℕ → List InvestigationStep → Type 0
Numbered first [] = Unit
Numbered first (step ∷ steps) = (step.step_number ≡ first) × Numbered (first + 1) steps

pub record IsValidPlan (plan : InvestigationPlan) : Type 0 where
  pub limit_low : 1 ≤ plan.max_steps
  pub limit_high : plan.max_steps ≤ 25
  pub within : plan.current_step_count ≤ plan.max_steps
  pub counted : length plan.steps ≡ plan.current_step_count
  pub numbered : Numbered 1 plan.steps
  pub hypothesised : 0 < length plan.hypotheses
  pub unstarted : plan.status ≡ initialized → plan.current_step_count ≡ 0
  pub started : plan.status ≡ in_progress → 0 < plan.current_step_count
  pub exhausted : plan.status ≡ step_limit_exceeded → plan.current_step_count ≡ plan.max_steps
  pub explained : is_terminal plan.status ≡ true → plan.concluded_root_cause ≢ none
  pub undecided : is_terminal plan.status ≡ false → plan.concluded_root_cause ≡ none

pub in_step_range_bounds :
    (n : ℤ) (limit : ℕ) → in_step_range n ≡ some limit → (1 ≤ limit) × (limit ≤ 25)
unfolding in_step_range
in_step_range_bounds (pos n) limit h = ground arith
in_step_range_bounds (negsuc n) limit h = cc

pub new_plan-IsValidPlan :
    (id hypothesis_id description : Text) (limit now : ℕ)
    → 1 ≤ limit
    → limit ≤ 25
    → IsValidPlan (new_plan id hypothesis_id description limit now)
unfolding new_plan
new_plan-IsValidPlan id hypothesis_id description limit now low high = ground arith

Numbered-snoc :
    (first : ℕ) (steps : List InvestigationStep) (step : InvestigationStep)
    → Numbered first steps
    → step.step_number ≡ first + length steps
    → Numbered first (steps ++ step ∷ [])
Numbered-snoc first [] step h e = (omega arith, tt)
Numbered-snoc first (s ∷ steps) step h e =
    (h.0, Numbered-snoc (first + 1) steps step h.1 (omega arith))

upsert-nonempty :
    (hypotheses : List Hypothesis) (hypothesis : Option Hypothesis)
    → 0 < length hypotheses
    → 0 < length (updated_hypotheses hypotheses hypothesis)
unfolding updated_hypotheses
upsert-nonempty hypotheses none h = h
upsert-nonempty (existing ∷ rest) (some hypothesis) h = ground arith
upsert-nonempty [] (some hypothesis) h = omega arith

pub advanced-IsValidPlan :
    (plan : InvestigationPlan) (hypothesis : Option Hypothesis) (details : StepDetails) (now : ℕ)
    → IsValidPlan plan
    → is_terminal plan.status ≡ false
    → plan.current_step_count < plan.max_steps
    → IsValidPlan (advanced plan hypothesis details now)
unfolding advanced
advanced-IsValidPlan plan hypothesis details now v active below = record {
  limit_low = v.limit_low;
  limit_high = v.limit_high;
  within = omega arith;
  counted = omega (arith, length-append {0} plan.steps, v.counted);
  numbered = Numbered-snoc 1 plan.steps _ v.numbered (omega (arith, v.counted));
  hypothesised = upsert-nonempty plan.hypotheses hypothesis v.hypothesised;
  unstarted = λ e. cc;
  started = λ e. omega arith;
  exhausted = λ e. cc;
  explained = λ e. cc;
  undecided = λ e. v.undecided active;
}

pub limited-IsValidPlan :
    (plan : InvestigationPlan) (now : ℕ)
    → IsValidPlan plan
    → is_terminal plan.status ≡ false
    → plan.max_steps ≤ plan.current_step_count
    → IsValidPlan (limited plan now)
unfolding limited
limited-IsValidPlan plan now v active full = record {
  limit_low = v.limit_low;
  limit_high = v.limit_high;
  within = v.within;
  counted = v.counted;
  numbered = v.numbered;
  hypothesised = v.hypothesised;
  unstarted = λ e. cc;
  started = λ e. cc;
  exhausted = λ e. omega (arith, v.within);
  explained = λ e. cc;
  undecided = λ e. v.undecided active;
}

pub length-confirm :
    (id : Text) (hypotheses : List Hypothesis) (matched : Option Hypothesis)
    → length (confirm id matched hypotheses).1 ≡ length hypotheses
unfolding confirm
length-confirm id [] matched = refl
length-confirm id (hyp ∷ hyps) matched = ap suc (length-confirm id hyps _)

-- A plan that ends, with the hypotheses that it has then.
pub ended-IsValidPlan :
    (plan : InvestigationPlan) (status : InvestigationStatus) (hypotheses : List Hypothesis)
    (cause : Text) (now : ℕ)
    → IsValidPlan plan
    → is_terminal status ≡ true
    → 0 < length hypotheses
    → IsValidPlan (record plan {
      status = status;
      hypotheses = hypotheses;
      concluded_root_cause = some cause;
      updated_at = now;
    })
ended-IsValidPlan plan status hypotheses cause now v ended some_left = record {
  limit_low = v.limit_low;
  limit_high = v.limit_high;
  within = v.within;
  counted = v.counted;
  numbered = v.numbered;
  hypothesised = some_left;
  unstarted = λ e. ground arith;
  started = λ e. ground arith;
  exhausted = λ e. ground arith;
  explained = λ e. cc;
  undecided = λ e. cc;
}
