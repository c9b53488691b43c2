-- ===== src/Gateway/Service/Loaded.antt =====
-- From the policy file of platform_security/rbac.py to the request that reaches a backend.
use superoffice_ai_support_m.Common.{
  ◌≡◌, ◌⊎◌, inl, inr, true, false, some, [], ◌∷◌, ◌++◌, Text, codes, lookup, lookup_or, member, pos,
  ◌≤ℤ◌, ok,
}
use superoffice_ai_support_m.Security.Models.{SecurityContext}
use superoffice_ai_support_m.Security.Rbac.{
  PolicyFile, ToolPermissionRule, load_and_validate_policy, production_write, attachment_access,
  attachment_tool, write_classifications, caller_rank,
}
use superoffice_ai_support_m.Security.Rbac.Validation.{loaded_policy_guards}
use superoffice_ai_support_m.Gateway.Contracts.{gave, GatewayState, GatewayService, ToolCall}
use superoffice_ai_support_m.Gateway.Service.{request_for, handle_tool_call}
use superoffice_ai_support_m.Gateway.Service.Perimeter.{handle_tool_call_sound}

-- A gateway whose policy was loaded from a file hands over nothing, or one request, in a context
-- that the authenticator accepted and for a tool that has a rule in the policy; if the rule is of a
-- write tier the context's production_write attribute is set, and if the tool is
-- get_attachment_content its attachment_access attribute is set, attachment access is enabled, and
-- the context's role has at least the rank of L3 (99 if the hierarchy does not list it).
pub loaded_gateway_guards :
    {J : Type 0} (upper : Text → Text) (file : PolicyFile) (service : GatewayService J)
    (call : ToolCall J) (state : GatewayState J)
    → load_and_validate_policy upper file ≡ ok service.authorizer.policy
    → ((handle_tool_call service call state).0.dispatched ≡ state.dispatched)
      ⊎ ((c : SecurityContext) × ((handle_tool_call service call state).0.dispatched
            ≡ state.dispatched ++ request_for service call c ∷ [])
          × ((header : Text) × (call.authorization_header ≡ some header)
              × (service.authenticate header ≡ gave c))
          × (rule : ToolPermissionRule) × (lookup call.tool_name service.authorizer.policy.tools
              ≡ some rule)
          × (member rule.classification write_classifications ≡ true
              → lookup_or production_write c.attributes false ≡ true)
          × (call.tool_name ≡ attachment_tool
              → (lookup_or attachment_access c.attributes false ≡ true)
                × (service.authorizer.attachment_access_enabled ≡ true)
                × (lookup_or (codes "L3") service.authorizer.policy.roles_hierarchy (pos 99)
                    ≤ℤ caller_rank service.authorizer.policy c.principal.role)))
loaded_gateway_guards upper file service call state loaded =
    elim (handle_tool_call_sound service call state) [
      | inl e ↦ inl e
      | inr (c, route, passes, e) ↦
          let (rule, found, write, access) =
            loaded_policy_guards upper file service.authorizer c.principal.role call.tool_name
              c.attributes loaded passes.authorized in
          inr (
            c,
            e,
            (passes.header, passes.presented, passes.authenticated),
            rule,
            found,
            write,
            access,
          )
    ]
