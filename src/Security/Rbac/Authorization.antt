-- ===== src/Security/Rbac/Authorization.antt =====
-- YamlPolicyEngine.authorize of platform_security/rbac.py: the decision for a security context.
use superoffice_ai_support_m.Common.{
  ◌≡◌, refl, ◌↔◌, Bool, true, false, some, Text, Dict, lookup, lookup-put, lookup_or, has_key,
  has_key-lookup, member, arith, if◌then◌else◌, text_eq, text_eq_iff, ◌≤ℤ◌, List,
}
use superoffice_ai_support_m.Security.Models.{SecurityContext}
use superoffice_ai_support_m.Security.Rbac.{
  YamlPolicyEngine, ToolPermissionRule, authorize, default_from_scopes, deny, production_write,
  attachment_access, evaluate_policy, caller_rank, required_rank,
}
use superoffice_ai_support_m.Security.Rbac.Decisions.{evaluate_policy_iff}

-- A privilege of a context: its attribute if it has one of that name, and else its scope.
abbrev pub granted : SecurityContext → Text → Bool
granted context privilege =
    if has_key privilege context.attributes
    then lookup_or privilege context.attributes false
    else member privilege context.principal.scopes

default_from_scopes_self :
    (privilege : Text) (scopes : List Text) (attributes : Dict Bool)
    → lookup_or privilege (default_from_scopes privilege scopes attributes) false ≡ (
        if has_key privilege attributes
        then lookup_or privilege attributes false
        else member privilege scopes)
unfolding default_from_scopes lookup_or
default_from_scopes_self privilege scopes attributes = ground (
  arith,
  lookup-put privilege privilege (member privilege scopes) attributes,
  text_eq_iff privilege privilege,
)

module _ (privilege j : Text) (scopes : List Text) (attributes : Dict Bool)
    (differ : text_eq privilege j ≡ false) where
  lookup-default_from_scopes :
      lookup j (default_from_scopes privilege scopes attributes) ≡ lookup j attributes
  unfolding default_from_scopes
  lookup-default_from_scopes =
      ground (arith, lookup-put privilege j (member privilege scopes) attributes)

  lookup_or-default_from_scopes :
      lookup_or j (default_from_scopes privilege scopes attributes) false
      ≡ lookup_or j attributes false
  unfolding lookup_or
  lookup_or-default_from_scopes = rw (lookup-default_from_scopes, lookup_or)

  has_key-default_from_scopes :
      has_key j (default_from_scopes privilege scopes attributes) ≡ has_key j attributes
  has_key-default_from_scopes = simp (has_key-lookup, lookup-default_from_scopes)

-- The attributes that authorize hands to evaluate_policy.
abbrev completed : SecurityContext → Dict Bool
completed context =
    default_from_scopes attachment_access context.principal.scopes
      (default_from_scopes production_write context.principal.scopes context.attributes)

module _ (context : SecurityContext) where
  completed_write :
      lookup_or production_write (completed context) false ≡ granted context production_write
  unfolding text_eq
  completed_write =
      rw (lookup_or-default_from_scopes attachment_access production_write _ _ refl)
        (default_from_scopes_self production_write context.principal.scopes context.attributes)

  completed_access :
      lookup_or attachment_access (completed context) false ≡ granted context attachment_access
  unfolding text_eq
  completed_access = rw (
    default_from_scopes_self attachment_access,
    has_key-default_from_scopes production_write attachment_access _ _ refl,
    lookup_or-default_from_scopes production_write attachment_access _ _ refl,
  )

authorize_authenticated :
    (engine : YamlPolicyEngine) (context : SecurityContext) (tool : Text)
    → (authorize engine context tool).is_allowed ≡ true
    → (context.is_authenticated ≡ true)
      × ((evaluate_policy engine context.principal.role tool (some (completed context))).is_allowed
          ≡ true)
unfolding authorize deny
authorize_authenticated engine context tool h = (ground arith, ground arith)

-- An authenticated context is allowed a tool exactly when the tool has a rule, the rank of the
-- context's role is at least the rule's, and the privileges that the rule requires are granted to
-- the context: by its attribute where it has one of that name, even one that is false, and else
-- by its scope. An unauthenticated context is allowed nothing.
pub authorize_iff :
    (engine : YamlPolicyEngine) (context : SecurityContext) (tool : Text)
    → ((authorize engine context tool).is_allowed ≡ true) ↔ (
        (context.is_authenticated ≡ true)
        × (rule : ToolPermissionRule) × (lookup tool engine.policy.tools ≡ some rule)
        × (required_rank engine.policy rule ≤ℤ caller_rank engine.policy context.principal.role)
        × (member production_write rule.requires ≡ true → granted context production_write ≡ true)
        × (member attachment_access rule.requires ≡ true
            → (engine.attachment_access_enabled ≡ true)
              × (granted context attachment_access ≡ true)))
unfolding authorize
authorize_iff engine context tool = (
  (λ h.
      let (authenticated, allowed) = authorize_authenticated engine context tool h in
      let (rule, found, m) =
        (evaluate_policy_iff engine context.principal.role (completed context) tool).0 allowed in
      (
        authenticated,
        rule,
        found,
        m.ranked,
        rw (completed_write context) at m.may_write,
        rw (completed_access context) at m.may_read_attachments,
      )),
  (λ (authenticated, rule, found, ranked, may_write, may_read). rw authenticated (
      (evaluate_policy_iff engine context.principal.role (completed context) tool).1 (
        rule,
        found,
        record {
          ranked = ranked;
          may_write = rw (completed_write context) may_write;
          may_read_attachments = rw (completed_access context) may_read;
        },
      ))),
)
