-- ===== src/Investigation/Orchestrator/Budget.antt =====
-- How many steps a plan of platform_investigation/orchestrator.py can take.
use superoffice_ai_support_m.Common.{
  ℕ, suc, ◌+◌, ◌-◌, ◌≤◌, ◌<◌, ◌≡◌, refl, min, true, false, Option, some, List, [], ◌∷◌, Text,
  lookup, length, leb, leb→le, not_leb→lt, Result, ok, err, arith, Bool-cases, inl, inr,
  lookup-put_self,
}
use superoffice_ai_support_m.Investigation.Models.{Hypothesis, InvestigationPlan}
use superoffice_ai_support_m.Investigation.Orchestrator.{
  Store, Outcome, StepDetails, InvestigationError, save_plan, get_plan, advance_step, advance_found,
  advanced, limited, is_terminal, is_limit_exceeded, step_limit,
}
use superoffice_ai_support_m.Investigation.Orchestrator.Invariant.{
  IsValidStore, advance_step-IsValidStore,
}

-- The arguments of one advance_step call but the plan's identifier.
pub record StepRequest : Type 0 where
  pub hypothesis : Option Hypothesis
  pub details : StepDetails
  pub now : ℕ

abbrev pub count_ok : Result InvestigationError InvestigationPlan → ℕ → ℕ
count_ok (ok _) n = suc n
count_ok (err _) n = n

-- Calls advance_step for each request and counts those that return.
pub advances : Store → Text → List StepRequest → ℕ
advances store plan_id [] = 0
advances store plan_id (request ∷ requests) =
    let (store', result) =
      advance_step store plan_id request.hypothesis request.details request.now in
    count_ok result (advances store' plan_id requests)

module _ (store : Store) (id : Text) (plan : InvestigationPlan) (request : StepRequest)
    (v : IsValidStore store) (h : lookup id store ≡ some plan)
    (active : is_terminal plan.status ≡ false) where
  abbrev call : Outcome
  call = advance_step store id request.hypothesis request.details request.now

  -- With room left the step is taken and the new plan is stored.
  advance_below :
      plan.current_step_count < plan.max_steps
      → (plan' : InvestigationPlan) × (call.1 ≡ ok plan')
        × (lookup id call.0 ≡ some plan')
        × (is_terminal plan'.status ≡ false)
        × (plan'.max_steps ≡ plan.max_steps)
        × (plan'.current_step_count ≡ plan.current_step_count + 1)
  unfolding advance_step advance_found get_plan save_plan advanced
  advance_below below =
      let e : leb plan.max_steps plan.current_step_count ≡ false = ground arith in
      let named = (v.plans id plan h).1 in
      (
        advanced plan request.hypothesis request.details request.now,
        rw (h, advance_found, active, e),
        rw (h, advance_found, active, e, named) (lookup-put_self id _ store),
        refl,
        refl,
        refl,
      )

  -- At the limit the call raises and the plan stays there.
  advance_full :
      plan.max_steps ≤ plan.current_step_count
      → (plan' : InvestigationPlan) × (call.1 ≡ err (step_limit id plan.max_steps))
        × (lookup id call.0 ≡ some plan')
        × (is_terminal plan'.status ≡ false)
        × (plan'.max_steps ≡ plan.max_steps)
        × (plan'.current_step_count ≡ plan.current_step_count)
  unfolding advance_step advance_found get_plan save_plan limited
  advance_full full =
      let e : leb plan.max_steps plan.current_step_count ≡ true = ground arith in
      let named = (v.plans id plan h).1 in
      elim (Bool-cases (is_limit_exceeded plan.status)) [
        | inl marked ↦ (
          plan,
          rw (h, advance_found, active, e),
          rw (h, advance_found, active, e, marked) h,
          active,
          refl,
          refl,
        )
        | inr unmarked ↦ (
          limited plan request.now,
          rw (h, advance_found, active, e),
          rw (h, advance_found, active, e, unmarked, named) (lookup-put_self id _ store),
          refl,
          refl,
          refl,
        )
      ]

advances-full :
    (store : Store) (id : Text) (plan : InvestigationPlan) (requests : List StepRequest)
    → IsValidStore store
    → lookup id store ≡ some plan
    → is_terminal plan.status ≡ false
    → plan.max_steps ≤ plan.current_step_count
    → advances store id requests ≡ 0
unfolding advances
advances-full store id plan [] v h active full = refl
advances-full store id plan (request ∷ requests) v h active full =
    let (plan', raised, stored, active', limit, count) =
      advance_full store id plan request v h active full in
    rw raised (
      advances-full (advance_step store id request.hypothesis request.details request.now).0 id
        plan' requests
        (advance_step-IsValidStore store id v request.hypothesis request.details request.now) stored
        active' (omega (arith, limit, count)))

-- Of n consecutive advance_step calls on a stored plan that is neither concluded nor aborted,
-- exactly min(n, max_steps - current_step_count) return a plan; the others raise. The store is
-- valid.
pub advances-eq-min :
    (store : Store) (id : Text) (plan : InvestigationPlan) (requests : List StepRequest)
    → IsValidStore store
    → lookup id store ≡ some plan
    → is_terminal plan.status ≡ false
    → advances store id requests ≡ min (length requests) (plan.max_steps - plan.current_step_count)
unfolding advances
advances-eq-min store id plan [] v h active = omega arith
advances-eq-min store id plan (request ∷ requests) v h active =
    elim (Bool-cases (leb plan.max_steps plan.current_step_count)) [
      | inl full ↦
          let le = leb→le plan.max_steps plan.current_step_count full in
          rw (advances-full store id plan (request ∷ requests) v h active le) (omega arith)
      | inr room ↦
          let below = not_leb→lt plan.max_steps plan.current_step_count room in
          let (plan', returned, stored, active', limit, count) =
            advance_below store id plan request v h active below in
          rw returned (
            omega (
              arith,
              limit,
              count,
              advances-eq-min
                  (advance_step store id request.hypothesis request.details request.now).0 id plan'
                  requests
                  (advance_step-IsValidStore store id v request.hypothesis request.details
                    request.now)
                  stored active',
            ))
    ]
