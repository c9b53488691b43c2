-- ===== src/Gateway/Service.antt =====
-- platform_gateway/services/gateway_service.py: one tool call through authentication, routing,
-- policy, rate limit, dispatch, sanitization and audit. Arguments of the model: the authenticator
-- and the dispatcher, with the exceptions that the service catches and those it does not, the sanitizer, the fresh identifier and the clock reading.
pub mod Perimeter
pub mod Audit
pub mod Loaded
pub mod Tokens
pub mod Results
use superoffice_ai_support_m.Common.{
  ℕ, Bool, true, false, not, ◌&&◌, Option, none, some, List, [], ◌∷◌, ◌++◌, Text, strip, is_blank,
  Dict, lookup, has_key, length, leb, Result, ok, err, if◌then◌else◌,
}
use superoffice_ai_support_m.Security.Models.{SecurityContext, DenialCode, AuthorizationDecision}
use superoffice_ai_support_m.Security.Rbac.{YamlPolicyEngine, evaluate_policy}
use superoffice_ai_support_m.Security.RateLimit.{
  SlidingWindowRateLimiter, single, format_rate_limit_key, is_allowed,
}
use superoffice_ai_support_m.Gateway.Routing.{
  TargetServer, ToolRouteDefinition, RoutingError, GatewayRoutingTable, get_route, has_route,
}
use superoffice_ai_support_m.Gateway.Contracts.{
  GatewayCode, ServiceError, AuditEvent, forbidden, denied, upstream_error, dispatch_failed,
  rate_limit_exceeded, invalid_token, authentication_required, validation_error, route_error,
  escaped_error, Attempt, gave, caught, escaped, fits_label, GatewayDispatchRequest,
  GatewayDispatchResponse, GatewayState, GatewayService, ToolCall, Answer, failure_code, denial,
  emit, response_of, respond, resolve_id,
}

module _ {J : Type 0} where
  -- AuditContext.record_failure, with what the context knows so far. The event trims its texts.
  unfoldable pub failure_event :
      ToolCall J → Option SecurityContext → Option TargetServer → GatewayCode → AuditEvent
  failure_event call context server code = record {
    action = strip call.tool_name;
    succeeded = false;
    target_resource = none;
    user_id = elim context [ none ↦ none | some c ↦ some (strip c.principal.user_id) ];
    role = elim context [ none ↦ none | some c ↦ some (strip c.principal.role) ];
    target_server = server;
    failure_reason = some code;
  }

  -- The failure is recorded and answered.
  unfoldable pub refuse :
      ToolCall J
      → GatewayState J
      → Option SecurityContext
      → Option TargetServer
      → GatewayCode
      → Answer J
  unfolding emit respond failure_event
  refuse call state context server code = (
    emit state (failure_event call context server code),
    respond call.tool_name (resolve_id call) false none (some code),
  )

  -- The event of a dispatched call: record_success, or record_failure with the response's code.
  unfoldable pub completion_event :
      ToolCall J → SecurityContext → ToolRouteDefinition → GatewayDispatchResponse J → AuditEvent
  unfolding failure_event
  completion_event call context route response =
      if response.success
      then record {
        action = strip call.tool_name;
        succeeded = true;
        target_resource = some (strip call.tool_name);
        user_id = some (strip context.principal.user_id);
        role = some (strip context.principal.role);
        target_server = some route.target_server;
        failure_reason = none;
      }
      else failure_event call (some context) (some route.target_server)
          (failure_code response.error)

  -- Step 7.
  unfoldable pub complete :
      ToolCall J
      → GatewayState J
      → SecurityContext
      → ToolRouteDefinition
      → Result ServiceError (GatewayDispatchResponse J)
      → Answer J
  unfolding emit completion_event
  complete call state context route (err e) = (state, err e)
  complete call state context route (ok response) =
      (emit state (completion_event call context route response), ok response)

  -- Step 6: a result is replaced by what the sanitizer makes of it.
  sanitize_result :
      GatewayService J
      → ToolCall J
      → GatewayDispatchResponse J
      → Option J
      → Option (J → J)
      → Result ServiceError (GatewayDispatchResponse J)
  unfolding respond
  sanitize_result service call response (some result) (some sanitize) =
      if response.success
      then respond call.tool_name (resolve_id call) true (some (sanitize result)) none
      else ok response
  sanitize_result service call response _ _ = ok response

  -- What the dispatcher answered, or the answer that stands for its error.
  received :
      ToolCall J
      → Attempt (GatewayDispatchResponse J)
      → Result ServiceError (GatewayDispatchResponse J)
  unfolding respond
  received call (gave response) = ok response
  received call escaped = err escaped_error
  received call caught = respond call.tool_name (resolve_id call) false none (some upstream_error)

  unfoldable pub after_dispatch :
      GatewayService J
      → ToolCall J
      → GatewayState J
      → SecurityContext
      → ToolRouteDefinition
      → Result ServiceError (GatewayDispatchResponse J)
      → Answer J
  unfolding complete sanitize_result
  after_dispatch service call state context route (err e) = (state, err e)
  after_dispatch service call state context route (ok response) =
      complete call state context route
        (sanitize_result service call response response.result service.sanitizer)

  unfoldable pub request_for :
      GatewayService J → ToolCall J → SecurityContext → GatewayDispatchRequest J
  request_for service call context = record {
    tool_name = strip call.tool_name;
    arguments = elim call.arguments [ none ↦ service.empty_arguments | some args ↦ args ];
    security_context = context;
    correlation_id = strip (resolve_id call);
  }

  -- Step 5: the request's own labels are checked before it is handed over.
  unfoldable pub forward :
      GatewayService J
      → ToolCall J
      → GatewayState J
      → SecurityContext
      → ToolRouteDefinition
      → Answer J
  unfolding after_dispatch request_for received fits_label
  forward service call state context route =
      if fits_label call.tool_name && fits_label (resolve_id call)
      then (let request = request_for service call context in
          after_dispatch service call
            (record state { dispatched = state.dispatched ++ request ∷ [] }) context route
            (received call (service.dispatch route request)))
      else (state, err validation_error)

  unfoldable pub rate_key : ToolCall J → SecurityContext → Text
  rate_key call context =
      format_rate_limit_key context.principal.user_id call.tool_name call.client_ip

  -- Step 4.
  limit_stage :
      GatewayService J
      → ToolCall J
      → GatewayState J
      → SecurityContext
      → ToolRouteDefinition
      → Option SlidingWindowRateLimiter
      → Answer J
  unfolding forward refuse rate_key
  limit_stage service call state context route none = forward service call state context route
  limit_stage service call state context route (some limiter) =
      let (limiter', allowed) = is_allowed limiter (single (rate_key call context)) call.now in
      let state' = record state { rate_limiter = some limiter' } in
      if allowed
      then forward service call state' context route
      else refuse call state' (some context) (some route.target_server) rate_limit_exceeded

  -- Step 3. The policy is asked for the name as the caller wrote it.
  policy_stage :
      GatewayService J
      → ToolCall J
      → GatewayState J
      → SecurityContext
      → Result RoutingError ToolRouteDefinition
      → Answer J
  unfolding limit_stage refuse
  policy_stage service call state context (err _) = (state, err route_error)
  policy_stage service call state context (ok route) =
      let decision =
        evaluate_policy service.authorizer context.principal.role call.tool_name
          (some context.attributes) in
      if not decision.is_allowed
      then refuse call state (some context) (some route.target_server) (denial decision.denial_code)
      else limit_stage service call state context route state.rate_limiter

  -- Step 2.
  route_stage : GatewayService J → ToolCall J → GatewayState J → Attempt SecurityContext → Answer J
  unfolding policy_stage refuse
  route_stage service call state caught = refuse call state none none invalid_token
  route_stage service call state escaped = (state, err escaped_error)
  route_stage service call state (gave context) =
      if not (has_route service.routing_table call.tool_name)
      then refuse call state (some context) none GatewayCode.route_not_found
      else policy_stage service call state context (get_route service.routing_table call.tool_name)

  -- Step 1.
  header_stage : GatewayService J → ToolCall J → GatewayState J → Option Text → Answer J
  unfolding route_stage refuse
  header_stage service call state none = refuse call state none none authentication_required
  header_stage service call state (some header) =
      if is_blank header
      then refuse call state none none authentication_required
      else route_stage service call state (service.authenticate header)

  unfoldable pub handle_tool_call : GatewayService J → ToolCall J → GatewayState J → Answer J
  unfolding header_stage
  handle_tool_call service call state = header_stage service call state call.authorization_header
