-- ===== src/Security/Rbac/Validation.antt =====
-- What a policy that passed the startup validation of platform_security/rbac.py guarantees.
use superoffice_ai_support_m.Common.{
  ◌≡◌, Bool, true, false, some, List, [], ◌∷◌, Text, codes, Dict, lookup, lookup_or,
  lookup-cons_property, member, text_eq, text_eq_iff, All, ok, >>=-eq-ok, arith, ℤ, Bool-cases, inl,
  inr, strip, pos, ◌≤ℤ◌,
}
use superoffice_ai_support_m.Security.Rbac.{
  PolicyError, PolicyFile, parsed, missing, broken, other, ToolPermissionRule, RbacPolicySchema,
  YamlPolicyEngine, allowed_roles, allowed_classifications, allowed_data_levels, allowed_privileges,
  write_classifications, attachment_tool, production_write, attachment_access, validate_vocabulary,
  validate_requires, validate_write_tool_privilege_invariant, validate_hierarchy,
  validate_attachment_gate, validate_rule, validate_tools, validate_policy,
  load_and_validate_policy, construct_mapping, evaluate_policy, invalid_role, caller_rank,
  required_rank,
}
use superoffice_ai_support_m.Security.Rbac.Decisions.{evaluate_policy_iff}

-- A rule that passed validate_rule.
pub record IsValidRule (rule : ToolPermissionRule) : Type 0 where
  pub role_known : member rule.minimum_role allowed_roles ≡ true
  pub classification_known : member rule.classification allowed_classifications ≡ true
  pub data_level_known : member rule.data_level allowed_data_levels ≡ true
  pub privileges_known : All (λ item. member item allowed_privileges ≡ true) rule.requires
  pub writes_guarded :
      member rule.classification write_classifications ≡ true
      → member production_write rule.requires ≡ true

-- A policy that passed validate_policy.
pub record IsValidPolicy (policy : RbacPolicySchema) : Type 0 where
  pub hierarchy_known :
      All (λ (entry : Text × ℤ). member entry.0 allowed_roles ≡ true) policy.roles_hierarchy
  pub rules_valid :
      (tool : Text) (rule : ToolPermissionRule)
      → lookup tool policy.tools ≡ some rule
      → IsValidRule rule
  pub attachments_gated :
      (rule : ToolPermissionRule)
      → lookup attachment_tool policy.tools ≡ some rule
      → (rule.minimum_role ≡ codes "L3") × (member attachment_access rule.requires ≡ true)

vocabulary_sound :
    (allowed : List Text) (e : PolicyError) (v w : Text)
    → validate_vocabulary allowed e v ≡ ok w
    → member w allowed ≡ true
unfolding validate_vocabulary
vocabulary_sound allowed e v w h = ground arith

requires_sound :
    (items checked : List Text)
    → validate_requires items ≡ ok checked
    → All (λ item. member item allowed_privileges ≡ true) checked
unfolding validate_requires
requires_sound [] checked h = let e : [] ≡ checked = cc in rw (← e) tt
requires_sound (item ∷ items) checked h = elim (Bool-cases (member item allowed_privileges)) [
  | inl known ↦
      let (rest, e, f) =
        >>=-eq-ok (validate_requires items) (λ rest. ok (item ∷ rest)) (rw known at h) in
      let g : item ∷ rest ≡ checked = cc in rw (← g) (known, requires_sound items rest e)
  | inr unknown ↦ cc (unknown)
]

write_invariant_sound :
    (rule checked : ToolPermissionRule)
    → validate_write_tool_privilege_invariant rule ≡ ok checked
    → (rule ≡ checked)
      × (member rule.classification write_classifications ≡ true
          → member production_write rule.requires ≡ true)
unfolding validate_write_tool_privilege_invariant
write_invariant_sound rule checked h = (ground arith, λ w. ground arith)

module _ (upper : Text → Text) where
  validate_rule-IsValidRule :
      (rule checked : ToolPermissionRule)
      → validate_rule upper rule ≡ ok checked
      → IsValidRule checked
  unfolding validate_rule
  validate_rule-IsValidRule rule checked h =
      let (role, h1, k1) =
        >>=-eq-ok (validate_vocabulary allowed_roles invalid_role (upper (strip rule.minimum_role)))
          _ h in
      let (clf, h2, k2) =
        >>=-eq-ok
          (validate_vocabulary allowed_classifications _ (upper (strip rule.classification))) _
          k1 in
      let (lvl, h3, k3) =
        >>=-eq-ok (validate_vocabulary allowed_data_levels _ (upper (strip rule.data_level))) _
          k2 in
      let (requires, h4, k4) = >>=-eq-ok (validate_requires rule.requires) _ k3 in
      let (e, w) = write_invariant_sound _ checked k4 in
      rw (← e) (record {
        role_known = vocabulary_sound _ _ _ role h1;
        classification_known = vocabulary_sound _ _ _ clf h2;
        data_level_known = vocabulary_sound _ _ _ lvl h3;
        privileges_known = requires_sound rule.requires requires h4;
        writes_guarded = w;
      })

  validate_tools_sound :
      (tools checked : Dict ToolPermissionRule)
      → validate_tools upper tools ≡ ok checked
      → (tool : Text) (rule : ToolPermissionRule) → lookup tool checked ≡ some rule
      → IsValidRule rule
  unfolding validate_tools
  validate_tools_sound [] checked h tool rule found =
      let e : [] ≡ checked = cc in unfold lookup in cc
  validate_tools_sound ((name, raw) ∷ tools) checked h tool rule found =
      let (valid, e, k) = >>=-eq-ok (validate_rule upper raw) _ h in
      let (rest, f, m) =
        >>=-eq-ok (validate_tools upper tools) (λ rest. ok ((name, valid) ∷ rest)) k in
      let eq : (name, valid) ∷ rest ≡ checked = cc in
      lookup-cons_property IsValidRule tool name valid rule rest
        (validate_rule-IsValidRule raw valid e) (validate_tools_sound tools rest f tool rule)
        (rw eq found)

hierarchy_sound :
    (hierarchy checked : Dict ℤ)
    → validate_hierarchy hierarchy ≡ ok checked
    → All (λ (entry : Text × ℤ). member entry.0 allowed_roles ≡ true) checked
unfolding validate_hierarchy
hierarchy_sound [] checked h = let e : [] ≡ checked = cc in rw (← e) tt
hierarchy_sound ((role, rank) ∷ rest) checked h = elim (Bool-cases (member role allowed_roles)) [
  | inl known ↦
      let (tail, e, f) =
        >>=-eq-ok (validate_hierarchy rest) (λ tail. ok ((role, rank) ∷ tail)) (rw known at h) in
      let g : (role, rank) ∷ tail ≡ checked = cc in rw (← g) (known, hierarchy_sound rest tail e)
  | inr unknown ↦ cc (unknown)
]

-- One round of the gate's loop.
gate_round :
    (name : Text) (rule : ToolPermissionRule) (tools : Dict ToolPermissionRule)
    → validate_attachment_gate ((name, rule) ∷ tools) ≡ ok tt
    → (validate_attachment_gate tools ≡ ok tt)
      × (text_eq name attachment_tool ≡ true
          → (rule.minimum_role ≡ codes "L3") × (member attachment_access rule.requires ≡ true))
unfolding validate_attachment_gate
gate_round name rule tools h = (
  ground arith,
  λ same. (ground (arith, text_eq_iff rule.minimum_role (codes "L3")), ground arith),
)

attachment_gate_sound :
    (tools : Dict ToolPermissionRule) (rule : ToolPermissionRule)
    → validate_attachment_gate tools ≡ ok tt
    → lookup attachment_tool tools ≡ some rule
    → (rule.minimum_role ≡ codes "L3") × (member attachment_access rule.requires ≡ true)
attachment_gate_sound [] rule h found = unfold lookup in cc
attachment_gate_sound ((name, raw) ∷ tools) rule h found =
    let (rest, here) = gate_round name raw tools h in
    elim (Bool-cases (text_eq name attachment_tool)) [
      | inl same ↦
          let e : raw ≡ rule = unfold lookup in (let f = rw same at found in cc) in
          rw (← e) (here same)
      | inr differs ↦ attachment_gate_sound tools rule rest (unfold lookup in rw differs at found)
    ]

module _ (upper : Text → Text) where
  -- A policy that the validators accept has only known roles in its hierarchy; each of its rules
  -- names a known role, classification and data level and known privileges, and requires
  -- production_write where its classification is one of the write tiers; and a rule for
  -- get_attachment_content has minimum role L3 and requires attachment_access.
  validate_policy-IsValidPolicy :
      (policy checked : RbacPolicySchema)
      → validate_policy upper policy ≡ ok checked
      → IsValidPolicy checked
  unfolding validate_policy
  validate_policy-IsValidPolicy policy checked h =
      let (hierarchy, e1, k1) = >>=-eq-ok (validate_hierarchy policy.roles_hierarchy) _ h in
      let (tools, e2, k2) = >>=-eq-ok (validate_tools upper policy.tools) _ k1 in
      let (gate, e3, k3) = >>=-eq-ok (validate_attachment_gate tools) _ k2 in
      let e : record policy { roles_hierarchy = hierarchy; tools = tools } ≡ checked = cc in
      rw (← e) (record {
        hierarchy_known = hierarchy_sound policy.roles_hierarchy hierarchy e1;
        rules_valid = validate_tools_sound upper policy.tools tools e2;
        attachments_gated = λ rule. attachment_gate_sound tools rule e3;
      })

  load-IsValidPolicy :
      (file : PolicyFile) (policy : RbacPolicySchema)
      → load_and_validate_policy upper file ≡ ok policy
      → IsValidPolicy policy
  unfolding load_and_validate_policy
  load-IsValidPolicy missing policy h = cc
  load-IsValidPolicy broken policy h = cc
  load-IsValidPolicy other policy h = cc
  load-IsValidPolicy (parsed document) policy h =
      let (hierarchy, e1, k1) = >>=-eq-ok (construct_mapping document.roles_hierarchy []) _ h in
      let (tools, e2, k2) = >>=-eq-ok (construct_mapping document.tools []) _ k1 in
      validate_policy-IsValidPolicy _ policy k2

  -- From the policy file to the decision: under a policy that loaded, a call to a tool of a write
  -- tier is allowed only with the production_write attribute set, and a call to
  -- get_attachment_content only with attachment_access set, attachment access enabled, and at
  -- least the rank of L3 (99 if the hierarchy does not list it).
  pub loaded_policy_guards :
      (file : PolicyFile) (engine : YamlPolicyEngine) (role tool : Text) (attributes : Dict Bool)
      → load_and_validate_policy upper file ≡ ok engine.policy
      → (evaluate_policy engine role tool (some attributes)).is_allowed ≡ true
      → (rule : ToolPermissionRule) × (lookup tool engine.policy.tools ≡ some rule)
        × (member rule.classification write_classifications ≡ true
            → lookup_or production_write attributes false ≡ true)
        × (tool ≡ attachment_tool
            → (lookup_or attachment_access attributes false ≡ true)
              × (engine.attachment_access_enabled ≡ true)
              × (lookup_or (codes "L3") engine.policy.roles_hierarchy (pos 99)
                  ≤ℤ caller_rank engine.policy role))
  unfolding required_rank
  loaded_policy_guards file engine role tool attributes loaded allowed =
      let valid = load-IsValidPolicy file engine.policy loaded in
      let (rule, found, m) = (evaluate_policy_iff engine role attributes tool).0 allowed in
      (
        rule,
        found,
        λ w. m.may_write ((valid.rules_valid tool rule found).writes_guarded w),
        λ e.
            let (l3, access) = valid.attachments_gated rule (rw e at found) in
            let (on, set) = m.may_read_attachments access in (set, on, rw l3 at m.ranked),
      )
