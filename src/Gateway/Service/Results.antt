-- ===== src/Gateway/Service/Results.antt =====
-- The results that leave platform_gateway/services/gateway_service.py with the sanitizer of
-- platform_security/sanitization.py.
use superoffice_ai_support_m.Common.{
  ◌≡◌, refl, subst, sym, ◌&&◌, Bool, true, false, Option, some, none, Text, Result, ok, err, Json,
  Bool-cases, inl, inr, is_blank,
}
use superoffice_ai_support_m.Security.Models.{SecurityContext}
use superoffice_ai_support_m.Security.Rbac.{evaluate_policy}
use superoffice_ai_support_m.Security.RateLimit.{SlidingWindowRateLimiter, single, is_allowed}
use superoffice_ai_support_m.Security.Sanitization.{sanitize}
use superoffice_ai_support_m.Security.Sanitization.Redaction.{IsRedacted, sanitize_lem}
use superoffice_ai_support_m.Gateway.Routing.{
  TargetServer, ToolRouteDefinition, RoutingError, has_route,
}
use superoffice_ai_support_m.Gateway.Contracts.{
  Attempt, gave, caught, escaped, GatewayCode, ServiceError, GatewayDispatchResponse, GatewayState,
  GatewayService, ToolCall, respond, response_of, resolve_id, fits_label, rate_limit_exceeded,
}
use superoffice_ai_support_m.Gateway.Service.{
  refuse, complete, after_dispatch, sanitize_result, forward, rate_key, limit_stage, policy_stage,
  route_stage, header_stage, handle_tool_call,
}

module _ (lower : Text → Text) (redact : Text → Text) where
  abbrev pub IsSafeResult : Bool → Option Json → Type 0
  IsSafeResult true (some result) = IsRedacted lower redact result
  IsSafeResult _ _ = Unit

  -- What is returned: if it says success and holds a result, the result is redacted.
  abbrev pub IsSafe : Result ServiceError (GatewayDispatchResponse Json) → Type 0
  IsSafe (err e) = Unit
  IsSafe (ok response) = IsSafeResult response.success response.result

  IsSafeResult-none : (success : Bool) → IsSafeResult success none
  IsSafeResult-none true = tt
  IsSafeResult-none false = tt

  respond-IsSafe_failure :
      (tool_name corr_id : Text) (result : Option Json) (error : Option GatewayCode)
      → IsSafe (respond tool_name corr_id false result error)
  unfolding respond response_of
  respond-IsSafe_failure tool_name corr_id result error =
      elim (Bool-cases (fits_label tool_name && fits_label corr_id)) [
        | inl fits ↦ rw (respond, fits) tt
        | inr other ↦ rw (respond, other) tt
      ]

  respond-IsSafe :
      (tool_name corr_id : Text) (result : Json) (error : Option GatewayCode)
      → IsRedacted lower redact result
      → IsSafe (respond tool_name corr_id true (some result) error)
  unfolding respond response_of
  respond-IsSafe tool_name corr_id result error clean =
      elim (Bool-cases (fits_label tool_name && fits_label corr_id)) [
        | inl fits ↦ rw (respond, fits) clean
        | inr other ↦ rw (respond, other) tt
      ]

  module _ (service : GatewayService Json) (call : ToolCall Json)
      (sanitizer : service.sanitizer ≡ some (sanitize lower redact)) where
    sanitize_result-IsSafe :
        (response : GatewayDispatchResponse Json) (result : Option Json)
        → response.result ≡ result
        → IsSafe (sanitize_result service call response result (some (sanitize lower redact)))
    unfolding sanitize_result
    sanitize_result-IsSafe response none same = rw same (IsSafeResult-none response.success)
    sanitize_result-IsSafe response (some result) same = elim (Bool-cases response.success) [
      | inl success ↦ rw success (
          respond-IsSafe call.tool_name (resolve_id call) (sanitize lower redact result) none
            (sanitize_lem lower redact result))
      | inr failed ↦ rw failed tt
    ]

    complete-IsSafe :
        (state : GatewayState Json) (context : SecurityContext) (route : ToolRouteDefinition)
        (result : Result ServiceError (GatewayDispatchResponse Json))
        → IsSafe result
        → IsSafe (complete call state context route result).1
    unfolding complete
    complete-IsSafe state context route (err e) safe = tt
    complete-IsSafe state context route (ok response) safe = safe

    after_dispatch-IsSafe :
        (state : GatewayState Json) (context : SecurityContext) (route : ToolRouteDefinition)
        (result : Result ServiceError (GatewayDispatchResponse Json))
        → IsSafe (after_dispatch service call state context route result).1
    unfolding after_dispatch
    after_dispatch-IsSafe state context route (err e) = tt
    after_dispatch-IsSafe state context route (ok response) =
        complete-IsSafe state context route _ (
          subst (λ s. IsSafe (sanitize_result service call response response.result s))
            (sym sanitizer) (sanitize_result-IsSafe response response.result refl))

    refuse-IsSafe :
        (state : GatewayState Json) (context : Option SecurityContext)
        (server : Option TargetServer) (code : GatewayCode)
        → IsSafe (refuse call state context server code).1
    unfolding refuse
    refuse-IsSafe state context server code =
        respond-IsSafe_failure call.tool_name (resolve_id call) none (some code)

    forward-IsSafe :
        (state : GatewayState Json) (context : SecurityContext) (route : ToolRouteDefinition)
        → IsSafe (forward service call state context route).1
    unfolding forward
    forward-IsSafe state context route =
        elim (Bool-cases (fits_label call.tool_name && fits_label (resolve_id call))) [
          | inl fits ↦ rw (forward, fits) (after_dispatch-IsSafe _ context route _)
          | inr other ↦ rw (forward, other) tt
        ]

    limit_stage-IsSafe :
        (state : GatewayState Json) (context : SecurityContext) (route : ToolRouteDefinition)
        (limiter : Option SlidingWindowRateLimiter)
        → IsSafe (limit_stage service call state context route limiter).1
    unfolding limit_stage
    limit_stage-IsSafe state context route none = forward-IsSafe state context route
    limit_stage-IsSafe state context route (some limiter) =
        elim (Bool-cases (is_allowed limiter (single (rate_key call context)) call.now).1) [
          | inl allowed ↦ rw allowed (forward-IsSafe _ context route)
          | inr over ↦
              let limiter' = (is_allowed limiter (single (rate_key call context)) call.now).0 in
              rw over (
                refuse-IsSafe (record state { rate_limiter = some limiter' }) (some context)
                  (some route.target_server) rate_limit_exceeded)
        ]

    policy_stage-IsSafe :
        (state : GatewayState Json) (context : SecurityContext)
        (found : Result RoutingError ToolRouteDefinition)
        → IsSafe (policy_stage service call state context found).1
    unfolding policy_stage
    policy_stage-IsSafe state context (err e) = tt
    policy_stage-IsSafe state context (ok route) =
        elim (Bool-cases
          (evaluate_policy service.authorizer context.principal.role call.tool_name
            (some context.attributes)).is_allowed) [
              | inl allowed ↦ rw allowed (limit_stage-IsSafe state context route state.rate_limiter)
              | inr refused ↦
                  rw refused (refuse-IsSafe state (some context) (some route.target_server) _)
            ]

    route_stage-IsSafe :
        (state : GatewayState Json) (authenticated : Attempt SecurityContext)
        → IsSafe (route_stage service call state authenticated).1
    unfolding route_stage
    route_stage-IsSafe state caught = refuse-IsSafe state none none _
    route_stage-IsSafe state escaped = tt
    route_stage-IsSafe state (gave context) =
        elim (Bool-cases (has_route service.routing_table call.tool_name)) [
          | inl listed ↦ rw listed (policy_stage-IsSafe state context _)
          | inr unknown ↦ rw unknown (refuse-IsSafe state (some context) none _)
        ]

    header_stage-IsSafe :
        (state : GatewayState Json) (header : Option Text)
        → IsSafe (header_stage service call state header).1
    unfolding header_stage
    header_stage-IsSafe state none = refuse-IsSafe state none none _
    header_stage-IsSafe state (some header) = elim (Bool-cases (is_blank header)) [
      | inl blank ↦ rw blank (refuse-IsSafe state none none _)
      | inr present ↦ rw present (route_stage-IsSafe state (service.authenticate header))
    ]

    -- Whatever the dispatcher answers, a response of handle_tool_call that says success
    -- holds no result or a redacted one: at every depth the value of a sensitive key is the
    -- mask, and any other text came out of the filter. The service has the recursive
    -- sanitizer, over whichever filter.
    pub handle_tool_call-IsSafe :
        (state : GatewayState Json) → IsSafe (handle_tool_call service call state).1
    unfolding handle_tool_call
    handle_tool_call-IsSafe state = header_stage-IsSafe state call.authorization_header
