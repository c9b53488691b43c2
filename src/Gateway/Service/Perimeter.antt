-- ===== src/Gateway/Service/Perimeter.antt =====
-- What gets through the perimeter of platform_gateway/services/gateway_service.py.
use superoffice_ai_support_m.Common.{
  ◌≡◌, refl, ◌⊎◌, inl, inr, true, false, ◌&&◌, Option, none, some, List, [], ◌∷◌, ◌++◌, Text,
  is_blank, Result, ok, err, if◌then◌else◌, Bool-cases,
}
use superoffice_ai_support_m.Security.Models.{SecurityContext}
use superoffice_ai_support_m.Security.Rbac.{evaluate_policy}
use superoffice_ai_support_m.Security.RateLimit.{SlidingWindowRateLimiter, single, is_allowed}
use superoffice_ai_support_m.Gateway.Routing.{
  TargetServer, ToolRouteDefinition, RoutingError, get_route, has_route,
}
use superoffice_ai_support_m.Gateway.Contracts.{
  GatewayCode, ServiceError, GatewayDispatchRequest, GatewayDispatchResponse, GatewayState,
  GatewayService, ToolCall, fits_label, resolve_id, authentication_required, rate_limit_exceeded,
  invalid_token, denial, Attempt, gave, caught, escaped,
}
use superoffice_ai_support_m.Gateway.Service.{
  refuse, complete, after_dispatch, request_for, forward, rate_key, limit_stage, policy_stage,
  route_stage, header_stage, handle_tool_call,
}

module _ {J : Type 0} (service : GatewayService J) (call : ToolCall J) where
  -- The checks that a call passes on its way to the dispatcher, as `context`, over `route`.
  pub record Passes (limiter : Option SlidingWindowRateLimiter) (context : SecurityContext)
      (route : ToolRouteDefinition) : Type 0 where
    pub header : Text
    pub presented : call.authorization_header ≡ some header
    pub present : is_blank header ≡ false
    pub authenticated : service.authenticate header ≡ gave context
    pub listed : has_route service.routing_table call.tool_name ≡ true
    pub routed : get_route service.routing_table call.tool_name ≡ ok route
    pub authorized :
        (evaluate_policy service.authorizer context.principal.role call.tool_name
          (some context.attributes)).is_allowed
        ≡ true
    pub in_limit :
        (l : SlidingWindowRateLimiter)
        → limiter ≡ some l
        → (is_allowed l (single (rate_key call context)) call.now).1 ≡ true
    pub labelled : (fits_label call.tool_name && fits_label (resolve_id call)) ≡ true

  dispatched-refuse :
      (state : GatewayState J) (context : Option SecurityContext) (server : Option TargetServer)
      (code : GatewayCode)
      → (refuse call state context server code).0.dispatched ≡ state.dispatched
  unfolding refuse
  dispatched-refuse state context server code = refl

  dispatched-complete :
      (state : GatewayState J) (context : SecurityContext) (route : ToolRouteDefinition)
      (result : Result ServiceError (GatewayDispatchResponse J))
      → (complete call state context route result).0.dispatched ≡ state.dispatched
  unfolding complete
  dispatched-complete state context route (err e) = refl
  dispatched-complete state context route (ok response) = refl

  dispatched-after_dispatch :
      (state : GatewayState J) (context : SecurityContext) (route : ToolRouteDefinition)
      (result : Result ServiceError (GatewayDispatchResponse J))
      → (after_dispatch service call state context route result).0.dispatched ≡ state.dispatched
  unfolding after_dispatch
  dispatched-after_dispatch state context route (err e) = refl
  dispatched-after_dispatch state context route (ok response) =
      dispatched-complete state context route _

  dispatched-forward :
      (state : GatewayState J) (context : SecurityContext) (route : ToolRouteDefinition)
      → (forward service call state context route).0.dispatched ≡ (
          if fits_label call.tool_name && fits_label (resolve_id call)
          then state.dispatched ++ request_for service call context ∷ []
          else state.dispatched)
  unfolding forward
  dispatched-forward state context route =
      elim (Bool-cases (fits_label call.tool_name && fits_label (resolve_id call))) [
        | inl e ↦ rw e (dispatched-after_dispatch _ context route _)
        | inr e ↦ rw e
      ]

  -- Nothing is handed over, or the call passes every check and its request is.
  abbrev Handed : GatewayState J → List (GatewayDispatchRequest J) → Type 0
  Handed state after =
      (after ≡ state.dispatched)
      ⊎ ((c : SecurityContext) × (r : ToolRouteDefinition) × Passes state.rate_limiter c r
          × (after ≡ state.dispatched ++ request_for service call c ∷ []))

  -- A caller who was authenticated, and the route of the tool.
  module _ (state : GatewayState J) (context : SecurityContext) (header : Text)
      (presented : call.authorization_header ≡ some header) (present : is_blank header ≡ false)
      (authenticated : service.authenticate header ≡ gave context)
      (listed : has_route service.routing_table call.tool_name ≡ true) where
    module _ (route : ToolRouteDefinition)
        (routed : get_route service.routing_table call.tool_name ≡ ok route)
        (authorized : (evaluate_policy service.authorizer context.principal.role call.tool_name
            (some context.attributes)).is_allowed
          ≡ true) where
      forward-Handed :
          (state' : GatewayState J)
          → state'.dispatched ≡ state.dispatched
          → ((l : SlidingWindowRateLimiter)
              → state.rate_limiter ≡ some l
              → (is_allowed l (single (rate_key call context)) call.now).1 ≡ true)
          → Handed state (forward service call state' context route).0.dispatched
      forward-Handed state' same in_limit =
          elim (Bool-cases (fits_label call.tool_name && fits_label (resolve_id call))) [
            | inr e ↦ inl (rw (dispatched-forward state' context route, e) same)
            | inl e ↦ inr (
              context,
              route,
              record {
                header = header;
                presented = presented;
                present = present;
                authenticated = authenticated;
                listed = listed;
                routed = routed;
                authorized = authorized;
                in_limit = in_limit;
                labelled = e;
              },
              rw (dispatched-forward state' context route, e, same),
            )
          ]

      limit-Handed :
          (limiter : Option SlidingWindowRateLimiter)
          → state.rate_limiter ≡ limiter
          → Handed state (limit_stage service call state context route limiter).0.dispatched
      unfolding limit_stage
      limit-Handed none e = forward-Handed state refl (λ l h. cc)
      limit-Handed (some limiter) e =
          elim (Bool-cases (is_allowed limiter (single (rate_key call context)) call.now).1) [
            | inl in_limit ↦
                rw in_limit
                  (forward-Handed _ refl (λ l h. let f : limiter ≡ l = cc in rw f at in_limit))
            | inr over ↦ inl (
                rw over (
                  dispatched-refuse
                    (record state {
                      rate_limiter =
                          some (is_allowed limiter (single (rate_key call context)) call.now).0;
                    })
                    (some context) (some route.target_server) rate_limit_exceeded))
          ]

    policy-Handed :
        (found : Result RoutingError ToolRouteDefinition)
        → get_route service.routing_table call.tool_name ≡ found
        → Handed state (policy_stage service call state context found).0.dispatched
    unfolding policy_stage
    policy-Handed (err e) routed = inl refl
    policy-Handed (ok route) routed =
        elim (Bool-cases
          (evaluate_policy service.authorizer context.principal.role call.tool_name
            (some context.attributes)).is_allowed) [
              | inl allowed ↦ rw allowed (limit-Handed route routed allowed state.rate_limiter refl)
              | inr refused ↦ inl (
                  rw refused (
                    dispatched-refuse state (some context) (some route.target_server) (
                      denial
                        (evaluate_policy service.authorizer context.principal.role call.tool_name
                          (some context.attributes)).denial_code)))
            ]

  route-Handed :
      (state : GatewayState J) (header : Text) (found : Attempt SecurityContext)
      → call.authorization_header ≡ some header
      → is_blank header ≡ false
      → service.authenticate header ≡ found
      → Handed state (route_stage service call state found).0.dispatched
  unfolding route_stage
  route-Handed state header caught presented present found =
      inl (dispatched-refuse state none none invalid_token)
  route-Handed state header escaped presented present found = inl refl
  route-Handed state header (gave context) presented present found =
      elim (Bool-cases (has_route service.routing_table call.tool_name)) [
        | inl listed ↦
            rw listed (policy-Handed state context header presented present found listed _ refl)
        | inr unlisted ↦
            inl (
              rw unlisted (dispatched-refuse state (some context) none GatewayCode.route_not_found))
      ]

  header-Handed :
      (state : GatewayState J) (given : Option Text)
      → call.authorization_header ≡ given
      → Handed state (header_stage service call state given).0.dispatched
  unfolding header_stage
  header-Handed state none e = inl (dispatched-refuse state none none authentication_required)
  header-Handed state (some header) e = elim (Bool-cases (is_blank header)) [
    | inl blank ↦ inl (rw blank (dispatched-refuse state none none authentication_required))
    | inr present ↦
        rw present (route-Handed state header (service.authenticate header) e present refl)
  ]

  -- A call hands at most one request to the dispatcher, and only if it passes every check: an
  -- Authorization header that is not blank and that the authenticator accepts, a route for the
  -- tool, a policy decision that allows it, room in the rate limit if there is a limiter, and a
  -- tool name and correlation identifier of 1 to 128 characters. The request carries the context
  -- that the authenticator returned.
  pub handle_tool_call_sound :
      (state : GatewayState J)
      → ((handle_tool_call service call state).0.dispatched ≡ state.dispatched)
        ⊎ ((c : SecurityContext) × (r : ToolRouteDefinition) × Passes state.rate_limiter c r
            × ((handle_tool_call service call state).0.dispatched
                ≡ state.dispatched ++ request_for service call c ∷ []))
  unfolding handle_tool_call
  handle_tool_call_sound state = header-Handed state call.authorization_header refl

  -- A call that passes every check hands its request to the dispatcher.
  pub handle_tool_call_complete :
      (state : GatewayState J) (context : SecurityContext) (route : ToolRouteDefinition)
      → Passes state.rate_limiter context route
      → (handle_tool_call service call state).0.dispatched
        ≡ state.dispatched ++ request_for service call context ∷ []
  unfolding handle_tool_call header_stage route_stage policy_stage
  handle_tool_call_complete state context route p =
      simp
        (
          p.presented, header_stage, p.present, p.authenticated, route_stage, p.listed, p.routed,
          policy_stage, p.authorized,
        )
        (stage_handed state.rate_limiter refl)
    where
      stage_handed :
          (limiter : Option SlidingWindowRateLimiter)
          → state.rate_limiter ≡ limiter
          → (limit_stage service call state context route limiter).0.dispatched
            ≡ state.dispatched ++ request_for service call context ∷ []
      stage_handed none e =
          unfold limit_stage in rw (dispatched-forward state context route, p.labelled)
      stage_handed (some l) e =
          unfold limit_stage in
          rw (p.in_limit l e) (
            rw (
              dispatched-forward
                  (record state {
                    rate_limiter = some (is_allowed l (single (rate_key call context)) call.now).0;
                  })
                  context route,
              p.labelled,
            ))
