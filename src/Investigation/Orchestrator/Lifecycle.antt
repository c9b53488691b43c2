-- ===== src/Investigation/Orchestrator/Lifecycle.antt =====
-- The life of a plan under any sequence of calls of platform_investigation/orchestrator.py.
use mathlib.Core.List.{append-nil}
use superoffice_ai_support_m.Common.{
  ℕ, ◌≤◌, ◌≡◌, refl, sym, ◌∙◌, ◌≢◌, true, false, Option, none, some, List, [], ◌∷◌, ◌++◌, ◌+◌, Text,
  text_eq, text_eq_iff, lookup, lookup-put, leb→le, not_leb→lt, ◌<◌, ℤ, arith, Bool-cases, inl, inr,
  is_blank, put, leb,
}
use superoffice_ai_support_m.Investigation.Models.{
  InvestigationStatus, initialized, in_progress, concluded, aborted, step_limit_exceeded,
  Hypothesis, InvestigationPlan, InvestigationStep,
}
use superoffice_ai_support_m.Investigation.Orchestrator.{
  Store, Outcome, StepDetails, get_plan, save_plan, create_plan, create_within, advance_step,
  advance_found, conclude_investigation, conclude_found, conclude_matched, abort_investigation,
  abort_found, is_terminal, is_limit_exceeded, advanced, limited, new_step, new_plan,
  concluded_plan, aborted_plan,
}
use superoffice_ai_support_m.Investigation.Orchestrator.Invariant.{
  IsValidStore, create_plan-IsValidStore, advance_step-IsValidStore,
  conclude_investigation-IsValidStore, abort_investigation-IsValidStore,
}

-- A call of the engine, with the clock readings and the identifiers that it draws.
pub data Call : Type 0 where
  create : ℤ → Text → Option ℤ → Text → Text → ℕ → Call
  advance : Text → Option Hypothesis → StepDetails → ℕ → Call
  conclude : Text → Text → ℕ → Call
  abort : Text → Text → ℕ → Call

unfoldable pub run_call : Store → Call → Outcome
run_call store (create default hypothesis max_steps id hypothesis_id now) =
    create_plan default store hypothesis max_steps id hypothesis_id now
run_call store (advance id hypothesis details now) = advance_step store id hypothesis details now
run_call store (conclude id final_id now) = conclude_investigation store id final_id now
run_call store (abort id reason now) = abort_investigation store id reason now

unfoldable pub run_calls : Store → List Call → Store
run_calls store [] = store
run_calls store (call ∷ calls) = run_calls (run_call store call).0 calls

run_call-IsValidStore :
    (store : Store) (call : Call) → IsValidStore store → IsValidStore (run_call store call).0
unfolding run_call
run_call-IsValidStore store (create default hypothesis max_steps id hypothesis_id now) v =
    create_plan-IsValidStore default store hypothesis max_steps id hypothesis_id now v
run_call-IsValidStore store (advance id hypothesis details now) v =
    advance_step-IsValidStore store id v hypothesis details now
run_call-IsValidStore store (conclude id final_id now) v =
    conclude_investigation-IsValidStore store id v final_id now
run_call-IsValidStore store (abort id reason now) v =
    abort_investigation-IsValidStore store id v reason now

-- After any sequence of calls from a valid store, the empty one included, every stored plan is
-- under its own identifier, has a limit from 1 to 25, no more steps than that, numbered 1, 2, … and
-- as many as its counter says, at least one hypothesis, a status that agrees with its counter, and
-- a root cause exactly if it is concluded or aborted.
pub run_calls-IsValidStore :
    (store : Store) (calls : List Call) → IsValidStore store → IsValidStore (run_calls store calls)
unfolding run_calls
run_calls-IsValidStore store [] v = v
run_calls-IsValidStore store (call ∷ calls) v =
    run_calls-IsValidStore (run_call store call).0 calls (run_call-IsValidStore store call v)

-- The diagram of the statuses.
infix 40 ◌⟶◌
pub data ◌⟶◌ : InvestigationStatus → InvestigationStatus → Type 0 where
  same : {s : InvestigationStatus} → s ⟶ s
  begin : initialized ⟶ in_progress
  exceed : in_progress ⟶ step_limit_exceeded
  end_concluded : {s : InvestigationStatus} → is_terminal s ≡ false → s ⟶ concluded
  end_aborted : {s : InvestigationStatus} → is_terminal s ≡ false → s ⟶ aborted

-- A created plan has an identifier that no stored plan has, which uuid4 is relied on for.
abbrev pub IsFresh : Store → Call → Type 0
IsFresh store (create default hypothesis max_steps id hypothesis_id now) = lookup id store ≡ none
IsFresh store _ = Unit

-- The steps of the first are the first steps of the second.
abbrev pub Extends : InvestigationPlan → InvestigationPlan → Type 0
Extends plan plan' = (later : List InvestigationStep) × (plan'.steps ≡ plan.steps ++ later)

-- What became of a plan that was stored under `id`.
pub record Follows (store : Store) (id : Text) (plan : InvestigationPlan) : Type 0 where
  pub plan' : InvestigationPlan
  pub stored : lookup id store ≡ some plan'
  pub moved : plan.status ⟶ plan'.status
  pub grown : Extends plan plan'
  pub limit_kept : plan'.max_steps ≡ plan.max_steps
  pub terminal_kept : is_terminal plan.status ≡ true → plan' ≡ plan

Follows-same :
    (store : Store) (id : Text) (plan : InvestigationPlan)
    → lookup id store ≡ some plan
    → Follows store id plan
Follows-same store id plan h = record {
  plan' = plan;
  stored = h;
  moved = same;
  grown = ([], sym (append-nil plan.steps));
  limit_kept = refl;
  terminal_kept = λ _. refl;
}

-- Saving another plan, or this one in a later state.
module _ (store : Store) (id : Text) (plan saved : InvestigationPlan)
    (h : lookup id store ≡ some plan) where
  Follows-save_other : (saved.investigation_id ≢ id) → Follows (save_plan store saved) id plan
  unfolding save_plan
  Follows-save_other differs = Follows-same (put saved.investigation_id saved store) id plan (
      ground (
        arith,
        lookup-put saved.investigation_id id saved store,
        text_eq_iff saved.investigation_id id,
      ))

  Follows-save_self :
      (saved.investigation_id ≡ id)
      → is_terminal plan.status ≡ false
      → (plan.status ⟶ saved.status)
      → Extends plan saved
      → saved.max_steps ≡ plan.max_steps
      → Follows (save_plan store saved) id plan
  unfolding save_plan
  Follows-save_self e active moved grown kept = record {
    plan' = saved;
    stored = rw (lookup-put, (text_eq_iff saved.investigation_id id).1 e);
    moved = moved;
    grown = grown;
    limit_kept = kept;
    terminal_kept = λ t. cc;
  }

⟶-exceeded :
    (s : InvestigationStatus) {count max : ℕ}
    → is_terminal s ≡ false
    → is_limit_exceeded s ≡ false
    → 1 ≤ max
    → max ≤ count
    → (s ≡ initialized → count ≡ 0)
    → (s ⟶ step_limit_exceeded)
⟶-exceeded initialized t e low full h = absurd (omega (arith, h refl))
⟶-exceeded in_progress t e low full h = exceed
⟶-exceeded concluded t e low full h = cc
⟶-exceeded aborted t e low full h = cc
⟶-exceeded step_limit_exceeded t e low full h = same

⟶-in_progress :
    (s : InvestigationStatus) {count max : ℕ}
    → is_terminal s ≡ false
    → count < max
    → (s ≡ step_limit_exceeded → count ≡ max)
    → (s ⟶ in_progress)
⟶-in_progress initialized t below h = begin
⟶-in_progress in_progress t below h = same
⟶-in_progress concluded t below h = cc
⟶-in_progress aborted t below h = cc
⟶-in_progress step_limit_exceeded t below h = absurd (omega (arith, h refl))

module _ (store : Store) (v : IsValidStore store) (id : Text) (plan : InvestigationPlan)
    (h : lookup id store ≡ some plan) where
  -- A call that found its plan, not at an end, and saves a later state of it.
  Follows-save :
      (plan_id : Text) (found saved : InvestigationPlan)
      → lookup plan_id store ≡ some found
      → saved.investigation_id ≡ found.investigation_id
      → is_terminal found.status ≡ false
      → (found.status ⟶ saved.status)
      → Extends found saved
      → saved.max_steps ≡ found.max_steps
      → Follows (save_plan store saved) id plan
  Follows-save plan_id found saved f e active moved grown kept =
      let named : saved.investigation_id ≡ plan_id = e ∙ (v.plans plan_id found f).1 in
      elim (Bool-cases (text_eq plan_id id)) [
        | inl same_id ↦
            let g : plan_id ≡ id = (text_eq_iff plan_id id).0 same_id in
            let k : some found ≡ some plan = sym (rw g at f) ∙ h in
            let m : found ≡ plan = cc in
            Follows-save_self store id plan saved h (named ∙ g) (rw m at active) (rw m at moved)
              (rw m at grown) (rw m at kept)
        | inr differs ↦ Follows-save_other store id plan saved h (λ q.
            let r : plan_id ≡ id = sym named ∙ q in let t = (text_eq_iff plan_id id).1 r in cc)
      ]

  advance_found-Follows :
      (plan_id : Text) (hypothesis : Option Hypothesis) (details : StepDetails) (now : ℕ)
      (found : Option InvestigationPlan)
      → lookup plan_id store ≡ found
      → Follows (advance_found store plan_id hypothesis details now found).0 id plan
  unfolding advance_found
  advance_found-Follows plan_id hypothesis details now none f = Follows-same store id plan h
  advance_found-Follows plan_id hypothesis details now (some p) f =
      let valid = (v.plans plan_id p f).0 in
      elim (Bool-cases (is_terminal p.status)) [
        | inl e ↦ rw e (Follows-same store id plan h)
        | inr active ↦ elim (Bool-cases (leb p.max_steps p.current_step_count)) [
          | inl full ↦ elim (Bool-cases (is_limit_exceeded p.status)) [
            | inl e ↦ rw (active, full, e) (Follows-same store id plan h)
            | inr e ↦
                rw (active, full, e)
                  (unfold limited in
                    Follows-save plan_id p _ f refl active
                      (⟶-exceeded p.status active e valid.limit_low (leb→le _ _ full)
                        valid.unstarted)
                      ([], sym (append-nil p.steps)) refl)
          ]
          | inr below ↦
              rw (active, below)
                (unfold advanced in
                  Follows-save plan_id p _ f refl active
                    (⟶-in_progress p.status active (not_leb→lt _ _ below) valid.exhausted)
                    (new_step (p.current_step_count + 1) details now ∷ [], refl) refl)
        ]
      ]

  conclude_matched-Follows :
      (plan_id final_id : Text) (now : ℕ) (p : InvestigationPlan)
      (match : Option Hypothesis × List Hypothesis)
      → lookup plan_id store ≡ some p
      → is_terminal p.status ≡ false
      → Follows (conclude_matched store plan_id final_id now p match).0 id plan
  unfolding conclude_matched concluded_plan
  conclude_matched-Follows plan_id final_id now p (none, hypotheses) f active =
      Follows-same store id plan h
  conclude_matched-Follows plan_id final_id now p (some hyp, hypotheses) f active =
      Follows-save plan_id p _ f refl active (end_concluded active) ([], sym (append-nil p.steps))
        refl

  conclude_found-Follows :
      (plan_id final_id : Text) (now : ℕ) (found : Option InvestigationPlan)
      → lookup plan_id store ≡ found
      → Follows (conclude_found store plan_id final_id now found).0 id plan
  unfolding conclude_found
  conclude_found-Follows plan_id final_id now none f = Follows-same store id plan h
  conclude_found-Follows plan_id final_id now (some p) f =
      elim (Bool-cases (is_terminal p.status)) [
        | inl e ↦ rw e (Follows-same store id plan h)
        | inr active ↦ rw active (conclude_matched-Follows plan_id final_id now p _ f active)
      ]

  abort_found-Follows :
      (plan_id reason : Text) (now : ℕ) (found : Option InvestigationPlan)
      → lookup plan_id store ≡ found
      → Follows (abort_found store plan_id reason now found).0 id plan
  unfolding abort_found aborted_plan
  abort_found-Follows plan_id reason now none f = Follows-same store id plan h
  abort_found-Follows plan_id reason now (some p) f = elim (Bool-cases (is_terminal p.status)) [
    | inl e ↦ rw e (Follows-same store id plan h)
    | inr active ↦ rw active (
        Follows-save plan_id p _ f refl active (end_aborted active) ([], sym (append-nil p.steps))
          refl)
  ]

  create_within-Follows :
      (new_id hypothesis_id description : Text) (now : ℕ) (limit : Option ℕ)
      → lookup new_id store ≡ none
      → Follows (create_within store new_id hypothesis_id description now limit).0 id plan
  unfolding create_within new_plan
  create_within-Follows new_id hypothesis_id description now none fresh =
      Follows-same store id plan h
  create_within-Follows new_id hypothesis_id description now (some limit) fresh =
      Follows-save_other store id plan _ h (λ e. let k = rw e at fresh in cc)

  create_plan-Follows :
      (default : ℤ) (hypothesis : Text) (max_steps : Option ℤ) (new_id hypothesis_id : Text)
      (now : ℕ)
      → lookup new_id store ≡ none
      → Follows (create_plan default store hypothesis max_steps new_id hypothesis_id now).0 id plan
  unfolding create_plan
  create_plan-Follows default hypothesis max_steps new_id hypothesis_id now fresh =
      elim (Bool-cases (is_blank hypothesis)) [
        | inl e ↦ rw e (Follows-same store id plan h)
        | inr e ↦ rw e (create_within-Follows new_id hypothesis_id _ now _ fresh)
      ]

  -- One call, whatever it is and whatever plan it is about, moves each stored plan along the diagram of the
  -- statuses or leaves it: initialized, in progress, step limit exceeded, and concluded or aborted
  -- at any time. The steps it has stay as they are, in front of any new one; it never changes the limit, and leaves a concluded or
  -- aborted plan exactly as it is. The store is valid, and a created plan has a fresh identifier.
  pub run_call-Follows :
      (call : Call) → IsFresh store call → Follows (run_call store call).0 id plan
  unfolding run_call advance_step conclude_investigation abort_investigation get_plan
  run_call-Follows (create default hypothesis max_steps new_id hypothesis_id now) fresh =
      create_plan-Follows default hypothesis max_steps new_id hypothesis_id now fresh
  run_call-Follows (advance plan_id hypothesis details now) fresh =
      advance_found-Follows plan_id hypothesis details now _ refl
  run_call-Follows (conclude plan_id final_id now) fresh =
      conclude_found-Follows plan_id final_id now _ refl
  run_call-Follows (abort plan_id reason now) fresh = abort_found-Follows plan_id reason now _ refl
