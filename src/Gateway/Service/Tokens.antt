-- ===== src/Gateway/Service/Tokens.antt =====
-- The gateway of platform_gateway/services/gateway_service.py with the authenticator of
-- platform_security/jwt.py and a policy that was loaded from a file.
use superoffice_ai_support_m.Common.{
  ℕ, ◌≡◌, refl, sym, ap, ◌⊎◌, inl, inr, true, false, Option, some, [], ◌∷◌, ◌++◌, Text, lookup,
  lookup_or, member, Dict, ℤ, Result, ok, err, Json, text_eq, arith,
}
use superoffice_ai_support_m.Security.Models.{SecurityContext}
use superoffice_ai_support_m.Security.Rbac.{
  PolicyFile, ToolPermissionRule, load_and_validate_policy, production_write, attachment_access,
  attachment_tool, write_classifications,
}
use superoffice_ai_support_m.Security.Jwt.{
  DecodeError, AuthError, iat_not_a_number, scope_not_a_text, JwtAuthenticator, authenticate,
  context_of, flag,
}
use superoffice_ai_support_m.Security.Jwt.Claims.{Accepts, authenticate_stages}
use superoffice_ai_support_m.Gateway.Contracts.{
  Attempt, gave, caught, escaped, GatewayState, GatewayService, ToolCall,
}
use superoffice_ai_support_m.Gateway.Service.{request_for, handle_tool_call}
use superoffice_ai_support_m.Gateway.Service.Loaded.{loaded_gateway_guards}

-- The AuthenticationErrors are caught; the errors of float and of pydantic are not.
abbrev failure_of : AuthError → Attempt SecurityContext
failure_of iat_not_a_number = escaped
failure_of scope_not_a_text = escaped
failure_of _ = caught

-- How the service sees the end of authenticate.
abbrev pub accepted : Result AuthError SecurityContext → Attempt SecurityContext
accepted (err e) = failure_of e
accepted (ok context) = gave context

accepted-gave :
    (answer : Result AuthError SecurityContext) (context : SecurityContext)
    → accepted answer ≡ gave context
    → answer ≡ ok context
accepted-gave (err e) context h = absurd (ground (arith, h))
accepted-gave (ok given) context h = let same : given ≡ context = cc h in ap ok same

module _ (lower upper : Text → Text) (decode : Text → Result DecodeError (Dict Json))
    (str_of : Json → Text) (float_of : Json → Option ℤ) (authenticator : JwtAuthenticator) (now : ℕ)
    (fresh_id : Text) where
  context_of_write :
      (claims : Dict Json) (scopes : _)
      → lookup_or production_write
          (context_of lower upper decode str_of float_of claims fresh_id scopes).attributes
          false
        ≡ flag production_write claims
  unfolding context_of lookup_or lookup text_eq
  context_of_write claims scopes = refl

  context_of_access :
      (claims : Dict Json) (scopes : _)
      → lookup_or attachment_access
          (context_of lower upper decode str_of float_of claims fresh_id scopes).attributes
          false
        ≡ flag attachment_access claims
  unfolding context_of lookup_or lookup text_eq
  context_of_access claims scopes = refl

  -- A gateway whose policy was loaded from a file and whose authenticator is the JWT
  -- authenticator hands over nothing, or one request: then the header holds a token that
  -- PyJWT decodes and the authenticator accepts, the tool has a rule in the policy, a rule
  -- of a write tier means that the claim production_write of that token is true in Python,
  -- and get_attachment_content means that its claim attachment_access is.
  pub token_gateway_guards :
      {J : Type 0} (file : PolicyFile) (service : GatewayService J) (call : ToolCall J)
      (state : GatewayState J)
      → load_and_validate_policy upper file ≡ ok service.authorizer.policy
      → ((header : Text)
          → service.authenticate header
            ≡ accepted
                (authenticate lower upper decode str_of float_of authenticator now fresh_id header))
      → ((handle_tool_call service call state).0.dispatched ≡ state.dispatched)
        ⊎ ((c : SecurityContext) × (header : Text) × (a : Accepts lower upper decode str_of float_of
              authenticator now fresh_id header c)
            × ((handle_tool_call service call state).0.dispatched
                ≡ state.dispatched ++ request_for service call c ∷ [])
            × (call.authorization_header ≡ some header)
            × (rule : ToolPermissionRule) × (lookup call.tool_name service.authorizer.policy.tools
                ≡ some rule)
            × (member rule.classification write_classifications ≡ true
                → flag production_write a.claims ≡ true)
            × (call.tool_name ≡ attachment_tool → flag attachment_access a.claims ≡ true))
  token_gateway_guards file service call state loaded by_token =
      elim (loaded_gateway_guards upper file service call state loaded) [
        | inl e ↦ inl e
        | inr (c, e, (header, presented, authenticated), rule, found, write, access) ↦
            let answer =
              authenticate lower upper decode str_of float_of authenticator now fresh_id header in
            let a =
              (authenticate_stages lower upper decode str_of float_of authenticator now fresh_id
                  header c).0
                (accepted-gave answer c (rw (sym (by_token header)) authenticated)) in
            inr (
              c,
              header,
              a,
              e,
              presented,
              rule,
              found,
              (λ tier. rw (sym (context_of_write a.claims a.scopes), a.made) (write tier)),
              (λ tool. rw (sym (context_of_access a.claims a.scopes), a.made) (access tool).0),
            )
      ]
