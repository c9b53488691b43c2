-- ===== src/Examples/Policies.antt =====
-- Runs of platform_security/rbac.py on a small policy.
use superoffice_ai_support_m.Common.{
  ◌≡◌, refl, ◌↔◌, Bool, true, false, some, [], ◌∷◌, codes, Dict, pos, lookup, lookup_or, member,
  text_eq, has_key, strip, put, ◌≤ℤ◌,
}
use superoffice_ai_support_m.Security.Models.{SecurityContext}
use superoffice_ai_support_m.Security.Rbac.{
  ToolPermissionRule, RbacPolicySchema, PolicyFile, parsed, YamlPolicyEngine, production_write,
  attachment_access, load_and_validate_policy, evaluate_policy, authorize, required_rank,
  caller_rank, write_classifications, attachment_tool,
}
use superoffice_ai_support_m.Security.Rbac.Decisions.{Meets, evaluate_policy_iff}
use superoffice_ai_support_m.Security.Rbac.Authorization.{authorize_iff, granted}
use superoffice_ai_support_m.Security.Rbac.Validation.{loaded_policy_guards}

abbrev read_rule : ToolPermissionRule
read_rule = record {
  minimum_role = codes "L1";
  classification = codes "READ_ONLY";
  data_level = codes "INTERNAL";
  requires = [];
  description = [];
}

abbrev write_rule : ToolPermissionRule
write_rule = record {
  minimum_role = codes "L2";
  classification = codes "SAFE_WRITE";
  data_level = codes "INTERNAL";
  requires = production_write ∷ [];
  description = [];
}

abbrev pub small_policy : RbacPolicySchema
small_policy = record {
  version = codes "1.0";
  roles_hierarchy = (codes "L1", pos 1) ∷ (codes "L2", pos 2) ∷ (codes "L3", pos 3) ∷ [];
  tools = (codes "get_ticket", read_rule) ∷ (codes "sync_codebase", write_rule) ∷ [];
}

abbrev pub small_file : PolicyFile
small_file = parsed (record {
  version = codes "1.0";
  roles_hierarchy = small_policy.roles_hierarchy;
  tools = small_policy.tools;
})

abbrev pub engine : YamlPolicyEngine
engine = record { policy = small_policy; attachment_access_enabled = false }

abbrev writer : Dict Bool
writer = (production_write, true) ∷ []

evaluate_policy_iff_example :
    ((evaluate_policy engine (codes "L3") (codes "sync_codebase") (some writer)).is_allowed ≡ true)
    ↔ ((rule : ToolPermissionRule) × (lookup (codes "sync_codebase") engine.policy.tools
          ≡ some rule)
        × Meets engine (codes "L3") writer rule)
evaluate_policy_iff_example = evaluate_policy_iff engine (codes "L3") writer (codes "sync_codebase")

abbrev pub caller : SecurityContext
caller = record {
  principal = record {
    user_id = codes "anna";
    role = codes "L2";
    scopes = production_write ∷ [];
    auth_method = codes "jwt";
  };
  token_id = codes "t1";
  is_authenticated = true;
  attributes = [];
}

authorize_iff_example : ((authorize engine caller (codes "sync_codebase")).is_allowed ≡ true) ↔ (
    (caller.is_authenticated ≡ true)
    × (rule : ToolPermissionRule) × (lookup (codes "sync_codebase") engine.policy.tools ≡ some rule)
    × (required_rank engine.policy rule ≤ℤ caller_rank engine.policy caller.principal.role)
    × (member production_write rule.requires ≡ true → granted caller production_write ≡ true)
    × (member attachment_access rule.requires ≡ true
        → (engine.attachment_access_enabled ≡ true) × (granted caller attachment_access ≡ true)))
authorize_iff_example = authorize_iff engine caller (codes "sync_codebase")

loaded_policy_guards_example :
    (rule : ToolPermissionRule) × (lookup (codes "sync_codebase") engine.policy.tools ≡ some rule)
    × (member rule.classification write_classifications ≡ true
        → lookup_or production_write writer false ≡ true)
    × (codes "sync_codebase" ≡ attachment_tool
        → (lookup_or attachment_access writer false ≡ true)
          × (engine.attachment_access_enabled ≡ true)
          × (lookup_or (codes "L3") engine.policy.roles_hierarchy (pos 99)
              ≤ℤ caller_rank engine.policy (codes "L2")))
unfolding load_and_validate_policy evaluate_policy has_key put text_eq member strip lookup
    caller_rank lookup_or required_rank
loaded_policy_guards_example =
    loaded_policy_guards (λ s. s) small_file engine (codes "L2") (codes "sync_codebase") writer refl
      refl
