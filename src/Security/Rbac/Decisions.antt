-- ===== src/Security/Rbac/Decisions.antt =====
-- When the policy engine of platform_security/rbac.py lets a call through.
use superoffice_ai_support_m.Common.{
  ◌≡◌, refl, ◌↔◌, Bool, true, false, Option, none, some, Text, Dict, lookup, lookup_or, member,
  ≤ℤ_trans, ◌≤ℤ◌, not_lt_iff, arith, ◌<ℤ◌,
}
use superoffice_ai_support_m.Security.Models.{
  DenialCode, unknown_tool, insufficient_role, missing_production_write, attachment_access_disabled,
  missing_attachment_access, unauthenticated,
}
use superoffice_ai_support_m.Security.Rbac.{
  YamlPolicyEngine, ToolPermissionRule, evaluate_policy, evaluate_rule, caller_rank, required_rank,
  production_write, attachment_access, deny,
}

-- What a rule asks of a caller.
pub record Meets (engine : YamlPolicyEngine) (role : Text) (attributes : Dict Bool)
    (rule : ToolPermissionRule) : Type 0 where
  pub ranked : required_rank engine.policy rule ≤ℤ caller_rank engine.policy role
  pub may_write :
      member production_write rule.requires ≡ true
      → lookup_or production_write attributes false ≡ true
  pub may_read_attachments :
      member attachment_access rule.requires ≡ true
      → (engine.attachment_access_enabled ≡ true)
        × (lookup_or attachment_access attributes false ≡ true)

module _ (engine : YamlPolicyEngine) (role : Text) (attributes : Dict Bool) where
  evaluate_rule_sound :
      (rule : ToolPermissionRule)
      → (evaluate_rule engine role attributes (some rule)).is_allowed ≡ true
      → Meets engine role attributes rule
  unfolding evaluate_rule deny
  evaluate_rule_sound rule h = record {
    ranked =
        (not_lt_iff (required_rank engine.policy rule) (caller_rank engine.policy role)).0
          (ground arith);
    may_write = λ w. ground arith;
    may_read_attachments = λ a. (ground arith, ground arith);
  }

  evaluate_rule_complete :
      (rule : ToolPermissionRule)
      → Meets engine role attributes rule
      → (evaluate_rule engine role attributes (some rule)).is_allowed ≡ true
  unfolding evaluate_rule deny
  evaluate_rule_complete rule m = ground (
    arith,
    (not_lt_iff (required_rank engine.policy rule) (caller_rank engine.policy role)).1 m.ranked,
    m.may_write,
    m.may_read_attachments,
  )

  evaluate_rule-found :
      (found : Option ToolPermissionRule)
      → (evaluate_rule engine role attributes found).is_allowed ≡ true
      → (rule : ToolPermissionRule) × (found ≡ some rule) × Meets engine role attributes rule
  evaluate_rule-found none h = unfold evaluate_rule deny in cc
  evaluate_rule-found (some rule) h = (rule, refl, evaluate_rule_sound rule h)

  -- A call is allowed exactly when the tool has a rule in the policy and the caller meets it: the
  -- caller's rank is at least the rule's, a rule that requires production_write finds that
  -- attribute set, and one that requires attachment_access finds it set while attachment access
  -- is enabled. Unknown tools are denied.
  pub evaluate_policy_iff :
      (tool : Text)
      → ((evaluate_policy engine role tool (some attributes)).is_allowed ≡ true) ↔ (
          (rule : ToolPermissionRule) × (lookup tool engine.policy.tools ≡ some rule)
          × Meets engine role attributes rule)
  unfolding evaluate_policy
  evaluate_policy_iff tool = (
    evaluate_rule-found (lookup tool engine.policy.tools),
    λ r. rw r.1 (evaluate_rule_complete r.0 r.2),
  )

-- The role hierarchy is cumulative: what a role may call, every role of at least its rank may call
-- with the same attributes.
evaluate_policy_cumulative :
    (engine : YamlPolicyEngine) (lower higher tool : Text) (attributes : Dict Bool)
    → caller_rank engine.policy lower ≤ℤ caller_rank engine.policy higher
    → (evaluate_policy engine lower tool (some attributes)).is_allowed ≡ true
    → (evaluate_policy engine higher tool (some attributes)).is_allowed ≡ true
evaluate_policy_cumulative engine lower higher tool attributes le h =
    let (rule, found, m) = (evaluate_policy_iff engine lower attributes tool).0 h in
    (evaluate_policy_iff engine higher attributes tool).1 (
      rule,
      found,
      record {
        ranked =
            ≤ℤ_trans (required_rank engine.policy rule) (caller_rank engine.policy lower)
              (caller_rank engine.policy higher) m.ranked le;
        may_write = m.may_write;
        may_read_attachments = m.may_read_attachments;
      },
    )

-- What each denial code says of the tool's rule, if it has one, and of the caller.
abbrev pub Violates :
    YamlPolicyEngine → Text → Dict Bool → Option ToolPermissionRule → DenialCode → Type 0
Violates engine role attributes found unknown_tool = found ≡ none
Violates engine role attributes found insufficient_role =
    (rule : ToolPermissionRule) × (found ≡ some rule)
    × ((caller_rank engine.policy role <ℤ required_rank engine.policy rule) ≡ true)
Violates engine role attributes found missing_production_write =
    (rule : ToolPermissionRule) × (found ≡ some rule)
    × (member production_write rule.requires ≡ true)
    × (lookup_or production_write attributes false ≡ false)
Violates engine role attributes found attachment_access_disabled =
    (rule : ToolPermissionRule) × (found ≡ some rule)
    × (member attachment_access rule.requires ≡ true)
    × (engine.attachment_access_enabled ≡ false)
Violates engine role attributes found missing_attachment_access =
    (rule : ToolPermissionRule) × (found ≡ some rule)
    × (member attachment_access rule.requires ≡ true)
    × (lookup_or attachment_access attributes false ≡ false)
Violates engine role attributes found unauthenticated = ⊥

module _ (engine : YamlPolicyEngine) (role : Text) (attributes : Dict Bool) where
  evaluate_rule_denial :
      (found : Option ToolPermissionRule) (code : DenialCode)
      → (evaluate_rule engine role attributes found).denial_code ≡ some code
      → ((evaluate_rule engine role attributes found).is_allowed ≡ false)
        × Violates engine role attributes found code
  unfolding evaluate_rule deny
  evaluate_rule_denial none unknown_tool h = (refl, refl)
  evaluate_rule_denial (some rule) insufficient_role h = (ground arith, (rule, refl, ground arith))
  evaluate_rule_denial (some rule) missing_production_write h =
      (ground arith, (rule, refl, ground arith, ground arith))
  evaluate_rule_denial (some rule) attachment_access_disabled h =
      (ground arith, (rule, refl, ground arith, ground arith))
  evaluate_rule_denial (some rule) missing_attachment_access h =
      (ground arith, (rule, refl, ground arith, ground arith))
  evaluate_rule_denial _ _ h = absurd (ground arith)

  -- A denial code is never wrong: a decision that carries one denies the call, and the violation
  -- that the code names is there.
  evaluate_policy_denial :
      (tool : Text) (code : DenialCode)
      → (evaluate_policy engine role tool (some attributes)).denial_code ≡ some code
      → ((evaluate_policy engine role tool (some attributes)).is_allowed ≡ false)
        × Violates engine role attributes (lookup tool engine.policy.tools) code
  unfolding evaluate_policy
  evaluate_policy_denial tool code h = evaluate_rule_denial (lookup tool engine.policy.tools) code h
