-- ===== src/Investigation/Orchestrator/Invariant.antt =====
-- What holds of every plan in the store of platform_investigation/orchestrator.py.
use superoffice_ai_support_m.Common.{
  ℕ, ◌<◌, ◌≡◌, refl, Bool, true, false, Option, none, some, List, [], Text, text_eq, text_eq_iff,
  lookup, lookup-put, ℤ, leb, length, if◌then◌else◌, arith, Bool-cases, Option-cases, inl, inr,
  is_blank,
}
use superoffice_ai_support_m.Investigation.Models.{
  concluded, aborted, Hypothesis, InvestigationPlan,
}
use superoffice_ai_support_m.Investigation.Orchestrator.{
  Store, StepDetails, get_plan, save_plan, in_step_range, create_within, create_plan, is_terminal,
  is_limit_exceeded, advance_found, advance_step, concluded_plan, conclude_matched, conclude_found,
  conclude_investigation, aborted_plan, abort_found, abort_investigation,
}
use superoffice_ai_support_m.Investigation.Orchestrator.Plans.{
  IsValidPlan, in_step_range_bounds, new_plan-IsValidPlan, advanced-IsValidPlan,
  limited-IsValidPlan, ended-IsValidPlan, length-confirm,
}

-- Every plan is valid, and is stored under its own identifier.
pub record IsValidStore (store : Store) : Type 0 where
  pub plans :
      (id : Text) (plan : InvestigationPlan)
      → lookup id store ≡ some plan
      → IsValidPlan plan × (plan.investigation_id ≡ id)

pub IsValidStore-nil : IsValidStore []
unfolding lookup
IsValidStore-nil = record { plans = λ id plan h. cc }

pub save_plan-IsValidStore :
    (store : Store) (plan : InvestigationPlan)
    → IsValidStore store
    → IsValidPlan plan
    → IsValidStore (save_plan store plan)
unfolding save_plan
save_plan-IsValidStore store plan v valid = record {
  plans = λ id found h. elim (Bool-cases (text_eq plan.investigation_id id)) [
    | inl same ↦
        let e : some plan ≡ some found = rw (lookup-put, same) at h in
        let f : plan ≡ found = cc in rw (← f) (valid, (text_eq_iff plan.investigation_id id).0 same)
    | inr differs ↦ v.plans id found (rw (lookup-put, differs) at h)
  ];
}

create_within-IsValidStore :
    (store : Store) (id hypothesis_id description : Text) (now : ℕ) (n : ℤ)
    → IsValidStore store
    → IsValidStore (create_within store id hypothesis_id description now (in_step_range n)).0
unfolding create_within
create_within-IsValidStore store id hypothesis_id description now n v =
    elim (Option-cases (in_step_range n)) [
      | inl e ↦ rw e v
      | inr (limit, e) ↦
          let (low, high) = in_step_range_bounds n limit e in
          rw e (
            save_plan-IsValidStore store _ v
              (new_plan-IsValidPlan id hypothesis_id description limit now low high))
    ]

pub create_plan-IsValidStore :
    (default : ℤ) (store : Store) (hypothesis : Text) (max_steps : Option ℤ)
    (id hypothesis_id : Text) (now : ℕ)
    → IsValidStore store
    → IsValidStore (create_plan default store hypothesis max_steps id hypothesis_id now).0
unfolding create_plan
create_plan-IsValidStore default store hypothesis max_steps id hypothesis_id now v =
    elim (Bool-cases (is_blank hypothesis)) [
      | inl e ↦ rw e v
      | inr e ↦ rw e (create_within-IsValidStore store id hypothesis_id _ now _ v)
    ]

-- A call that found its plan keeps the store valid if it keeps that plan valid.
module _ (store : Store) (id : Text) (v : IsValidStore store) where
  advance_found-IsValidStore :
      (hypothesis : Option Hypothesis) (details : StepDetails) (now : ℕ)
      (found : Option InvestigationPlan)
      → ((plan : InvestigationPlan) → found ≡ some plan → IsValidPlan plan)
      → IsValidStore (advance_found store id hypothesis details now found).0
  unfolding advance_found
  advance_found-IsValidStore hypothesis details now none valid = v
  advance_found-IsValidStore hypothesis details now (some plan) valid =
      elim (Bool-cases (is_terminal plan.status)) [
        | inl e ↦ rw e v
        | inr active ↦ elim (Bool-cases (leb plan.max_steps plan.current_step_count)) [
          | inl full ↦
              rw (active, full)
                (if_valid (is_limit_exceeded plan.status) v (
                  save_plan-IsValidStore store _ v
                    (limited-IsValidPlan plan now (valid plan refl) active (ground arith))))
          | inr below ↦
              rw (active, below)
                (save_plan-IsValidStore store _ v (
                  advanced-IsValidPlan plan hypothesis details now (valid plan refl) active
                    (ground arith)))
        ]
      ]
    where
      if_valid :
          {s t : Store} (b : Bool)
          → IsValidStore s
          → IsValidStore t
          → IsValidStore (if b then s else t)
      if_valid true p q = p
      if_valid false p q = q

  conclude_matched-IsValidStore :
      (final_id : Text) (now : ℕ) (plan : InvestigationPlan)
      (match : Option Hypothesis × List Hypothesis)
      → IsValidPlan plan
      → 0 < length match.1
      → IsValidStore (conclude_matched store id final_id now plan match).0
  unfolding conclude_matched concluded_plan
  conclude_matched-IsValidStore final_id now plan (none, hypotheses) valid left = v
  conclude_matched-IsValidStore final_id now plan (some hyp, hypotheses) valid left =
      save_plan-IsValidStore store _ v
        (ended-IsValidPlan plan concluded hypotheses hyp.description now valid refl left)

  conclude_found-IsValidStore :
      (final_id : Text) (now : ℕ) (found : Option InvestigationPlan)
      → ((plan : InvestigationPlan) → found ≡ some plan → IsValidPlan plan)
      → IsValidStore (conclude_found store id final_id now found).0
  unfolding conclude_found
  conclude_found-IsValidStore final_id now none valid = v
  conclude_found-IsValidStore final_id now (some plan) valid =
      elim (Bool-cases (is_terminal plan.status)) [
        | inl e ↦ rw e v
        | inr active ↦
            let w = valid plan refl in
            rw active (
              conclude_matched-IsValidStore final_id now plan _ w
                (rw (length-confirm final_id plan.hypotheses none) w.hypothesised))
      ]

  abort_found-IsValidStore :
      (reason : Text) (now : ℕ) (found : Option InvestigationPlan)
      → ((plan : InvestigationPlan) → found ≡ some plan → IsValidPlan plan)
      → IsValidStore (abort_found store id reason now found).0
  unfolding abort_found aborted_plan
  abort_found-IsValidStore reason now none valid = v
  abort_found-IsValidStore reason now (some plan) valid =
      elim (Bool-cases (is_terminal plan.status)) [
        | inl e ↦ rw e v
        | inr active ↦
            let w = valid plan refl in
            rw active (
              save_plan-IsValidStore store _ v
                (ended-IsValidPlan plan aborted plan.hypotheses _ now w refl w.hypothesised))
      ]

  pub advance_step-IsValidStore :
      (hypothesis : Option Hypothesis) (details : StepDetails) (now : ℕ)
      → IsValidStore (advance_step store id hypothesis details now).0
  unfolding advance_step
  advance_step-IsValidStore hypothesis details now =
      advance_found-IsValidStore hypothesis details now (get_plan store id)
        (unfold get_plan in λ plan e. (v.plans id plan e).0)

  pub conclude_investigation-IsValidStore :
      (final_id : Text) (now : ℕ) → IsValidStore (conclude_investigation store id final_id now).0
  unfolding conclude_investigation
  conclude_investigation-IsValidStore final_id now =
      conclude_found-IsValidStore final_id now (get_plan store id)
        (unfold get_plan in λ plan e. (v.plans id plan e).0)

  pub abort_investigation-IsValidStore :
      (reason : Text) (now : ℕ) → IsValidStore (abort_investigation store id reason now).0
  unfolding abort_investigation
  abort_investigation-IsValidStore reason now =
      abort_found-IsValidStore reason now (get_plan store id)
        (unfold get_plan in λ plan e. (v.plans id plan e).0)
