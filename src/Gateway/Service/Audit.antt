-- ===== src/Gateway/Service/Audit.antt =====
-- The audit trail of platform_gateway/services/gateway_service.py.
use superoffice_ai_support_m.Common.{
  ◌≡◌, refl, Bool, true, false, ◌&&◌, Option, none, some, List, [], ◌∷◌, ◌++◌, Text, strip,
  is_blank, lookup, has_key-lookup, ok, err, ◌⊎◌, arith, Bool-cases, Option-cases, inl, inr,
}
use superoffice_ai_support_m.Security.Models.{SecurityContext}
use superoffice_ai_support_m.Security.Rbac.{evaluate_policy}
use superoffice_ai_support_m.Security.RateLimit.{SlidingWindowRateLimiter, single, is_allowed}
use superoffice_ai_support_m.Gateway.Routing.{
  TargetServer, ToolRouteDefinition, found_route, get_route, has_route,
}
use superoffice_ai_support_m.Gateway.Contracts.{
  GatewayCode, AuditEvent, GatewayDispatchResponse, GatewayState, GatewayService, ToolCall, Answer,
  fits_label, resolve_id, response_of, emit, respond, authentication_required, rate_limit_exceeded,
  invalid_token, denial, escaped_error, Attempt, gave, caught, escaped,
}
use superoffice_ai_support_m.Gateway.Service.{
  failure_event, completion_event, refuse, complete, sanitize_result, received, after_dispatch,
  request_for, forward, rate_key, limit_stage, policy_stage, route_stage, header_stage,
  handle_tool_call,
}

-- The call returned, and one event was added, which says what the response says.
pub record Audited {J : Type 0} (call : ToolCall J) (events : List AuditEvent) (answer : Answer J)
    : Type 0 where
  pub response : GatewayDispatchResponse J
  pub event : AuditEvent
  pub returned : answer.1 ≡ ok response
  pub recorded : answer.0.audit_sink ≡ some (events ++ event ∷ [])
  pub named : event.action ≡ strip call.tool_name
  pub agrees : event.succeeded ≡ response.success

module _ {J : Type 0} (service : GatewayService J) (call : ToolCall J) (events : List AuditEvent)
    (fits : (fits_label call.tool_name && fits_label (resolve_id call)) ≡ true) where
  refuse-Audited :
      (state : GatewayState J) (context : Option SecurityContext) (server : Option TargetServer)
      (code : GatewayCode)
      → state.audit_sink ≡ some events
      → Audited call events (refuse call state context server code)
  unfolding refuse emit respond failure_event response_of
  refuse-Audited state context server code sink = record {
    response = response_of call.tool_name (resolve_id call) false none (some code);
    event = failure_event call context server code;
    returned = rw fits;
    recorded = rw sink;
    named = refl;
    agrees = refl;
  }

  complete-Audited :
      (state : GatewayState J) (context : SecurityContext) (route : ToolRouteDefinition)
      (response : GatewayDispatchResponse J)
      → state.audit_sink ≡ some events
      → Audited call events (complete call state context route (ok response))
  unfolding complete emit completion_event failure_event
  complete-Audited state context route response sink = record {
    response = response;
    event = completion_event call context route response;
    returned = refl;
    recorded = rw sink;
    named = elim (Bool-cases response.success) [ inl e ↦ rw e | inr e ↦ rw e ];
    agrees = elim (Bool-cases response.success) [ inl e ↦ rw e | inr e ↦ rw e ];
  }

  respond_ok :
      (b : Bool) (result : Option J) (error : Option GatewayCode)
      → (r : GatewayDispatchResponse J) × (respond call.tool_name (resolve_id call) b result error
          ≡ ok r)
  unfolding respond
  respond_ok b result error = (response_of call.tool_name (resolve_id call) b result error, rw fits)

  sanitize_ok :
      (response : GatewayDispatchResponse J) (result : Option J) (sanitizer : Option (J → J))
      → (r : GatewayDispatchResponse J) × (sanitize_result service call response result sanitizer
          ≡ ok r)
  unfolding sanitize_result
  sanitize_ok response (some result) (some sanitize) = elim (Bool-cases response.success) [
    | inl e ↦ rw e (respond_ok true (some (sanitize result)) none)
    | inr e ↦ (response, rw e)
  ]
  sanitize_ok response none sanitizer = (response, refl)
  sanitize_ok response (some result) none = (response, refl)

  -- An exception that the service does not catch left the call, and no event was added.
  abbrev pub Leaves : Answer J → Type 0 → Type 0
  Leaves answer cause = (answer.1 ≡ err escaped_error) × (answer.0.audit_sink ≡ some events) × cause

  -- The call returned with its event, or an exception left it for that cause.
  abbrev pub Ends : Answer J → Type 0 → Type 0
  Ends answer cause = Audited call events answer ⊎ Leaves answer cause

  Ends-weaken :
      {first second : Type 0} (answer : Answer J)
      → (first → second)
      → Ends answer first
      → Ends answer second
  Ends-weaken answer f (inl audited) = inl audited
  Ends-weaken answer f (inr (raised, silent, cause)) = inr (raised, silent, f cause)

  abbrev pub DispatchEscapes : SecurityContext → ToolRouteDefinition → Type 0
  DispatchEscapes context route =
      service.dispatch route (request_for service call context) ≡ escaped

  -- The route of the tool, and the dispatcher's exception.
  abbrev pub RoutedEscapes : SecurityContext → Type 0
  RoutedEscapes context =
      (route : ToolRouteDefinition) × (get_route service.routing_table call.tool_name ≡ ok route)
      × DispatchEscapes context route

  answered-Audited :
      (state : GatewayState J) (context : SecurityContext) (route : ToolRouteDefinition)
      (response : GatewayDispatchResponse J)
      → state.audit_sink ≡ some events
      → Audited call events (after_dispatch service call state context route (ok response))
  unfolding after_dispatch
  answered-Audited state context route response sink =
      let (final, f) = sanitize_ok response response.result service.sanitizer in
      rw f (complete-Audited state context route final sink)

  after_dispatch-Ends :
      (state : GatewayState J) (context : SecurityContext) (route : ToolRouteDefinition)
      (answer : Attempt (GatewayDispatchResponse J))
      → state.audit_sink ≡ some events
      → Ends
          (after_dispatch service call state context route (received call answer))
          (answer ≡ escaped)
  unfolding received after_dispatch
  after_dispatch-Ends state context route (gave response) sink =
      inl (answered-Audited state context route response sink)
  after_dispatch-Ends state context route caught sink =
      let (response, e) = respond_ok false none (some GatewayCode.upstream_error) in
      inl (rw e (answered-Audited state context route response sink))
  after_dispatch-Ends state context route escaped sink = inr (refl, sink, refl)

  forward-Ends :
      (state : GatewayState J) (context : SecurityContext) (route : ToolRouteDefinition)
      → state.audit_sink ≡ some events
      → Ends (forward service call state context route) (DispatchEscapes context route)
  unfolding forward
  forward-Ends state context route sink =
      let request = request_for service call context in
      rw fits (
        after_dispatch-Ends (record state { dispatched = state.dispatched ++ request ∷ [] }) context
          route (service.dispatch route request) sink)

  limit-Ends :
      (state : GatewayState J) (context : SecurityContext) (route : ToolRouteDefinition)
      (limiter : Option SlidingWindowRateLimiter)
      → state.audit_sink ≡ some events
      → Ends (limit_stage service call state context route limiter) (DispatchEscapes context route)
  unfolding limit_stage
  limit-Ends state context route none sink = forward-Ends state context route sink
  limit-Ends state context route (some limiter) sink =
      let state' : GatewayState J = record state {
        rate_limiter = some (is_allowed limiter (single (rate_key call context)) call.now).0;
      } in
      elim (Bool-cases (is_allowed limiter (single (rate_key call context)) call.now).1) [
        | inl e ↦ rw e (forward-Ends state' context route sink)
        | inr e ↦ inl (
            rw e (
              refuse-Audited state' (some context) (some route.target_server) rate_limit_exceeded
                sink))
      ]

  policy-Ends :
      (state : GatewayState J) (context : SecurityContext) (route : ToolRouteDefinition)
      → state.audit_sink ≡ some events
      → Ends (policy_stage service call state context (ok route)) (DispatchEscapes context route)
  unfolding policy_stage
  policy-Ends state context route sink =
      let decision =
        evaluate_policy service.authorizer context.principal.role call.tool_name
          (some context.attributes) in
      elim (Bool-cases decision.is_allowed) [
        | inl e ↦ rw e (limit-Ends state context route state.rate_limiter sink)
        | inr e ↦ inl (
            rw e (
              refuse-Audited state (some context) (some route.target_server)
                (denial decision.denial_code) sink))
      ]

  -- A listed name has a route, so get_route does not raise.
  listed_route :
      has_route service.routing_table call.tool_name ≡ true
      → (route : ToolRouteDefinition) × (get_route service.routing_table call.tool_name ≡ ok route)
  unfolding has_route get_route
  listed_route listed = elim (Option-cases (lookup (strip call.tool_name) service.routing_table)) [
    | inl e ↦ absurd (ground (arith, has_key-lookup (strip call.tool_name) service.routing_table))
    | inr (route, e) ↦ (route, rw e (unfold found_route in refl))
  ]

  -- The authenticator's own exception, or the dispatcher's for the context that it gave.
  abbrev pub AnyEscapes : Attempt SecurityContext → Type 0
  AnyEscapes found =
      (found ≡ escaped)
      ⊎ ((context : SecurityContext) × (found ≡ gave context) × RoutedEscapes context)

  route-Ends :
      (state : GatewayState J) (found : Attempt SecurityContext)
      → state.audit_sink ≡ some events
      → Ends (route_stage service call state found) (AnyEscapes found)
  unfolding route_stage
  route-Ends state caught sink = inl (refuse-Audited state none none invalid_token sink)
  route-Ends state escaped sink = inr (refl, sink, inl refl)
  route-Ends state (gave context) sink =
      elim (Bool-cases (has_route service.routing_table call.tool_name)) [
        | inl e ↦
            let (route, f) = listed_route e in
            rw (e, f)
              (Ends-weaken _ (λ cause. inr (context, refl, (route, refl, cause)))
                (policy-Ends state context route sink))
        | inr e ↦
            inl (rw e (refuse-Audited state (some context) none GatewayCode.route_not_found sink))
      ]

  -- A header was given, and what was called with it or for it raised.
  abbrev pub HeaderEscapes : Option Text → Type 0
  HeaderEscapes given =
      (header : Text) × (given ≡ some header) × AnyEscapes (service.authenticate header)

  header-Ends :
      (state : GatewayState J) (given : Option Text)
      → state.audit_sink ≡ some events
      → Ends (header_stage service call state given) (HeaderEscapes given)
  unfolding header_stage
  header-Ends state none sink = inl (refuse-Audited state none none authentication_required sink)
  header-Ends state (some header) sink = elim (Bool-cases (is_blank header)) [
    | inl e ↦ inl (rw e (refuse-Audited state none none authentication_required sink))
    | inr e ↦ rw e (
        Ends-weaken _ (λ cause. (header, refl, cause))
          (route-Ends state (service.authenticate header) sink))
  ]

  -- With an audit sink, which takes every event, and a tool name and correlation identifier of 1 to 128 characters, a call
  -- returns a response and adds exactly one event to the sink, whichever check ended it: the event
  -- has the trimmed tool name that was asked for, and reports success exactly if the response does.
  -- Or no event is added and an exception leaves the call: then the authenticator raised something
  -- other than AuthenticationError for the header, or it gave a context and the dispatcher raised
  -- something other than GatewayDispatchError for the request and the tool's route.
  pub handle_tool_call-Audited :
      (state : GatewayState J)
      → state.audit_sink ≡ some events
      → Ends (handle_tool_call service call state) (HeaderEscapes call.authorization_header)
  unfolding handle_tool_call
  handle_tool_call-Audited state sink = header-Ends state call.authorization_header sink
