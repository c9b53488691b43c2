-- ===== src/Security/Rbac.antt =====
-- platform_security/rbac.py: the tool policy, its validation at startup, and the decision for a
-- call. What PyYAML and pydantic do before the validators run (reading the file, typing the
-- scalars and trimming them) is the argument `PolicyFile`. `upper` is str.upper, whose Unicode
-- table is an argument. Of several violations the first one is reported, where pydantic lists all.
pub mod Decisions
pub mod Authorization
pub mod Mapping
pub mod Validation
use superoffice_ai_support_m.Common.{
  Bool, true, false, not, ◌&&◌, Option, none, some, List, [], ◌∷◌, Text, codes, strip, text_eq,
  member, Dict, lookup, lookup_or, has_key, put, ℤ, pos, ◌<ℤ◌, Result, ok, err, ◌>>=◌, ◌>>◌,
  require, if◌then◌else◌,
}
use superoffice_ai_support_m.Security.Models.{
  SecurityContext, DenialCode, AuthorizationDecision, unknown_tool, insufficient_role,
  missing_production_write, attachment_access_disabled, missing_attachment_access, unauthenticated,
}

pub data PolicyError : Type 0 where
  file_not_found unreadable not_a_dictionary duplicate_key : PolicyError
  invalid_role invalid_classification invalid_data_level invalid_privilege : PolicyError
  write_without_privilege invalid_hierarchy_role : PolicyError
  attachment_role attachment_privilege : PolicyError

abbrev pub allowed_roles : List Text
allowed_roles = codes "L1" ∷ codes "L2" ∷ codes "L3" ∷ []

abbrev pub allowed_classifications : List Text
allowed_classifications =
    codes "READ_ONLY" ∷ codes "SAFE_WRITE" ∷ codes "SENSITIVE_WRITE" ∷ codes "DESTRUCTIVE" ∷ []

abbrev pub allowed_data_levels : List Text
allowed_data_levels =
    codes "PUBLIC"
    ∷ codes "INTERNAL"
    ∷ codes "CONFIDENTIAL"
    ∷ codes "RESTRICTED"
    ∷ codes "SECRET"
    ∷ []

abbrev pub production_write : Text
production_write = codes "production_write"

abbrev pub attachment_access : Text
attachment_access = codes "attachment_access"

abbrev pub allowed_privileges : List Text
allowed_privileges = production_write ∷ attachment_access ∷ []

abbrev pub write_classifications : List Text
write_classifications = codes "SAFE_WRITE" ∷ codes "SENSITIVE_WRITE" ∷ codes "DESTRUCTIVE" ∷ []

abbrev pub attachment_tool : Text
attachment_tool = codes "get_attachment_content"

pub record ToolPermissionRule : Type 0 where
  pub minimum_role : Text
  pub classification : Text
  pub data_level : Text
  pub requires : List Text
  pub description : Text

pub record RbacPolicySchema : Type 0 where
  pub version : Text
  pub roles_hierarchy : Dict ℤ
  pub tools : Dict ToolPermissionRule

-- A document as PyYAML's nodes give it: pairs in document order, keys not yet unique. Its keys have
-- no space around them.
pub record PolicyDocument : Type 0 where
  pub version : Text
  pub roles_hierarchy : List (Text × ℤ)
  pub tools : List (Text × ToolPermissionRule)

pub data PolicyFile : Type 0 where
  missing broken other : PolicyFile
  parsed : PolicyDocument → PolicyFile

-- _construct_mapping_with_dup_check, from the mapping built so far
unfoldable pub construct_mapping {ℓ} :
    {V : Type ℓ} → List (Text × V) → Dict V → Result PolicyError (Dict V)
construct_mapping [] mapping = ok mapping
construct_mapping ((key, value) ∷ nodes) mapping =
    if has_key key mapping
    then err duplicate_key
    else construct_mapping nodes (put key value mapping)

validate_vocabulary : List Text → PolicyError → Text → Result PolicyError Text
validate_vocabulary allowed e v = if member v allowed then ok v else err e

validate_requires : List Text → Result PolicyError (List Text)
validate_requires [] = ok []
validate_requires (item ∷ items) =
    if member item allowed_privileges
    then (validate_requires items >>= λ rest. ok (item ∷ rest))
    else err invalid_privilege

validate_write_tool_privilege_invariant : ToolPermissionRule → Result PolicyError ToolPermissionRule
validate_write_tool_privilege_invariant rule =
    if member rule.classification write_classifications
      && not (member production_write rule.requires)
    then err write_without_privilege
    else ok rule

validate_hierarchy : Dict ℤ → Result PolicyError (Dict ℤ)
validate_hierarchy [] = ok []
validate_hierarchy ((role, rank) ∷ rest) =
    if member role allowed_roles
    then (validate_hierarchy rest >>= λ checked. ok ((role, rank) ∷ checked))
    else err invalid_hierarchy_role

validate_attachment_gate : Dict ToolPermissionRule → Result PolicyError (Unit {0})
validate_attachment_gate [] = ok tt
validate_attachment_gate ((tool_name, rule) ∷ tools) =
    if text_eq tool_name attachment_tool
    then (if text_eq rule.minimum_role (codes "L3")
        then (if member attachment_access rule.requires
            then validate_attachment_gate tools
            else err attachment_privilege)
        else err attachment_role)
    else validate_attachment_gate tools

module _ (upper : Text → Text) where
  -- The field validators in the order of the fields, then the model validator.
  unfoldable pub validate_rule : ToolPermissionRule → Result PolicyError ToolPermissionRule
  unfolding validate_vocabulary validate_requires validate_write_tool_privilege_invariant
  validate_rule rule = do
    role ← validate_vocabulary allowed_roles invalid_role (upper (strip rule.minimum_role))
    clf ←
        validate_vocabulary allowed_classifications invalid_classification
          (upper (strip rule.classification))
    lvl ← validate_vocabulary allowed_data_levels invalid_data_level (upper (strip rule.data_level))
    requires ← validate_requires rule.requires
    validate_write_tool_privilege_invariant (record rule {
      minimum_role = role;
      classification = clf;
      data_level = lvl;
      requires = requires;
    })

  unfoldable validate_tools : Dict ToolPermissionRule → Result PolicyError (Dict ToolPermissionRule)
  unfolding validate_rule
  validate_tools [] = ok []
  validate_tools ((tool_name, rule) ∷ tools) = do
    checked ← validate_rule rule
    rest ← validate_tools tools
    ok ((tool_name, checked) ∷ rest)

  -- RbacPolicySchema.model_validate
  unfoldable pub validate_policy : RbacPolicySchema → Result PolicyError RbacPolicySchema
  unfolding validate_hierarchy validate_tools validate_attachment_gate
  validate_policy policy = do
    hierarchy ← validate_hierarchy policy.roles_hierarchy
    tools ← validate_tools policy.tools
    validate_attachment_gate tools
    ok (record policy { roles_hierarchy = hierarchy; tools = tools })

  unfoldable pub load_and_validate_policy : PolicyFile → Result PolicyError RbacPolicySchema
  unfolding construct_mapping validate_policy
  load_and_validate_policy missing = err file_not_found
  load_and_validate_policy broken = err unreadable
  load_and_validate_policy other = err not_a_dictionary
  load_and_validate_policy (parsed document) = do
    hierarchy ← construct_mapping document.roles_hierarchy []
    tools ← construct_mapping document.tools []
    validate_policy
        (record { version = document.version; roles_hierarchy = hierarchy; tools = tools })

pub record YamlPolicyEngine : Type 0 where
  pub policy : RbacPolicySchema
  pub attachment_access_enabled : Bool

unfoldable pub deny : DenialCode → AuthorizationDecision
deny code = record { is_allowed = false; denial_code = some code }

unfoldable pub check_privileges :
    YamlPolicyEngine → ToolPermissionRule → Dict Bool → Option AuthorizationDecision
unfolding deny
check_privileges engine rule attributes =
    if member production_write rule.requires && not (lookup_or production_write attributes false)
    then some (deny missing_production_write)
    else if member attachment_access rule.requires
    then (if not engine.attachment_access_enabled
        then some (deny attachment_access_disabled)
        else if not (lookup_or attachment_access attributes false)
        then some (deny missing_attachment_access)
        else none)
    else none

-- The rank that a role has, and the rank that a rule asks for, with the defaults of the code.
unfoldable pub caller_rank : RbacPolicySchema → Text → ℤ
caller_rank policy role = lookup_or role policy.roles_hierarchy (pos 0)

unfoldable pub required_rank : RbacPolicySchema → ToolPermissionRule → ℤ
required_rank policy rule = lookup_or rule.minimum_role policy.roles_hierarchy (pos 99)

evaluate_rule :
    YamlPolicyEngine → Text → Dict Bool → Option ToolPermissionRule → AuthorizationDecision
unfolding check_privileges
evaluate_rule engine role attributes none = deny unknown_tool
evaluate_rule engine role attributes (some rule) =
    if caller_rank engine.policy role <ℤ required_rank engine.policy rule
    then deny insufficient_role
    else elim (check_privileges engine rule attributes) [
      | some denial ↦ denial
      | none ↦ record { is_allowed = true; denial_code = none }
    ]

-- `context_attributes or {}`
unfoldable pub attributes_or_empty : Option (Dict Bool) → Dict Bool
attributes_or_empty none = []
attributes_or_empty (some attributes) = attributes

-- The environment argument is not read by the code.
unfoldable pub evaluate_policy :
    YamlPolicyEngine → Text → Text → Option (Dict Bool) → AuthorizationDecision
unfolding evaluate_rule attributes_or_empty
evaluate_policy engine principal_role tool_name context_attributes =
    evaluate_rule engine principal_role (attributes_or_empty context_attributes)
      (lookup tool_name engine.policy.tools)

-- A privilege that the token did not set is granted by a scope of the same name.
unfoldable pub default_from_scopes : Text → List Text → Dict Bool → Dict Bool
default_from_scopes privilege scopes attributes =
    if has_key privilege attributes
    then attributes
    else put privilege (member privilege scopes) attributes

unfoldable pub authorize : YamlPolicyEngine → SecurityContext → Text → AuthorizationDecision
authorize engine context action =
    if not context.is_authenticated
    then deny unauthenticated
    else evaluate_policy engine context.principal.role action (
        some (
          default_from_scopes attachment_access context.principal.scopes
            (default_from_scopes production_write context.principal.scopes context.attributes)))
