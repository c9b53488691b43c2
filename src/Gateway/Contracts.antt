-- ===== src/Gateway/Contracts.antt =====
-- platform_gateway/contracts/dispatch.py, the state of the application service, and the steps of
-- platform_gateway/services/gateway_service.py that every answer is built from. `J` is the type of
-- JSON values, which are handed on whole: what pydantic trims of the texts in arguments and results
-- is left out, as are messages for people. A sink takes every event.
use superoffice_ai_support_m.Common.{
  ℕ, Bool, ◌&&◌, Option, none, some, List, [], ◌∷◌, ◌++◌, Text, strip, is_blank, length, leb,
  Result, ok, err, if◌then◌else◌,
}
use superoffice_ai_support_m.Security.Models.{SecurityContext, DenialCode}
use superoffice_ai_support_m.Security.Rbac.{YamlPolicyEngine}
use superoffice_ai_support_m.Security.RateLimit.{SlidingWindowRateLimiter}
use superoffice_ai_support_m.Gateway.Routing.{
  TargetServer, ToolRouteDefinition, GatewayRoutingTable,
}

-- The error codes that the service sends; `upstream` is one that the dispatcher reported.
pub data GatewayCode : Type 0 where
  authentication_required invalid_token route_not_found forbidden : GatewayCode
  denied : DenialCode → GatewayCode
  rate_limit_exceeded upstream_error dispatch_failed : GatewayCode
  upstream : Text → GatewayCode

-- What a call can raise: pydantic's ValidationError, the table's RouteNotFoundError, or an exception
-- of the authenticator or the dispatcher that the service does not catch.
pub data ServiceError : Type 0 where
  validation_error route_error escaped_error : ServiceError

-- How a call of the authenticator or of the dispatcher ends: with a value, with the exception that
-- the service catches (AuthenticationError, GatewayDispatchError), or with another one.
pub data Attempt (A : Type 0) : Type 0 where
  gave : A → Attempt A
  caught escaped : Attempt A

-- The fields that a tool call fills in; its identifier, time and metadata are left out. `succeeded`
-- is the status SUCCESS, and else FAILED.
pub record AuditEvent : Type 0 where
  pub action : Text
  pub succeeded : Bool
  pub target_resource : Option Text
  pub user_id : Option Text
  pub role : Option Text
  pub target_server : Option TargetServer
  pub failure_reason : Option GatewayCode

-- CorrelationIdentifier and the tool name of a request or response: 1 to 128 characters, trimmed.
unfoldable pub fits_label : Text → Bool
fits_label label = leb 1 (length (strip label)) && leb (length (strip label)) 128

module _ (J : Type 0) where
  pub record GatewayDispatchRequest : Type 0 where
    pub tool_name : Text
    pub arguments : J
    pub security_context : SecurityContext
    pub correlation_id : Text

  pub record GatewayDispatchResponse : Type 0 where
    pub tool_name : Text
    pub success : Bool
    pub result : Option J
    pub error : Option GatewayCode
    pub correlation_id : Text

  pub record GatewayState : Type 0 where
    pub rate_limiter : Option SlidingWindowRateLimiter
    pub audit_sink : Option (List AuditEvent)
    pub dispatched : List GatewayDispatchRequest

  pub record GatewayService : Type 0 where
    pub routing_table : GatewayRoutingTable
    pub authorizer : YamlPolicyEngine
    pub authenticate : Text → Attempt SecurityContext
    pub dispatch : ToolRouteDefinition → GatewayDispatchRequest → Attempt GatewayDispatchResponse
    pub sanitizer : Option (J → J)
    pub empty_arguments : J

  pub record ToolCall : Type 0 where
    pub tool_name : Text
    pub arguments : Option J
    pub authorization_header : Option Text
    pub correlation_id : Option Text
    pub client_ip : Option Text
    pub fresh_id : Text
    pub now : ℕ

-- The state after a call, and what it returns or raises.
abbrev pub Answer : Type 0 → Type 0
Answer J = GatewayState J × Result ServiceError (GatewayDispatchResponse J)

-- error code of a failed dispatch, `DISPATCH_FAILED` if the response has none
abbrev pub failure_code : Option GatewayCode → GatewayCode
failure_code none = dispatch_failed
failure_code (some code) = code

-- decision.denial_code or "FORBIDDEN"
abbrev pub denial : Option DenialCode → GatewayCode
denial none = forbidden
denial (some code) = denied code

module _ {J : Type 0} where
  -- AuditContext: an event is emitted if there is a sink.
  unfoldable pub emit : GatewayState J → AuditEvent → GatewayState J
  emit state event = record state {
    audit_sink = elim state.audit_sink [ none ↦ none | some events ↦ some (events ++ event ∷ []) ];
  }

  -- What a response is made of, its texts trimmed.
  unfoldable pub response_of :
      Text → Text → Bool → Option J → Option GatewayCode → GatewayDispatchResponse J
  response_of tool_name corr_id success result error = record {
    tool_name = strip tool_name;
    success = success;
    result = result;
    error = error;
    correlation_id = strip corr_id;
  }

  -- GatewayDispatchResponse(...), which checks its texts.
  unfoldable pub respond :
      Text
      → Text
      → Bool
      → Option J
      → Option GatewayCode
      → Result ServiceError (GatewayDispatchResponse J)
  unfolding fits_label response_of
  respond tool_name corr_id success result error =
      if fits_label tool_name && fits_label corr_id
      then ok (response_of tool_name corr_id success result error)
      else err validation_error

  unfoldable pub resolve_id : ToolCall J → Text
  resolve_id call = elim call.correlation_id [
    | none ↦ call.fresh_id
    | some id ↦ if is_blank id then call.fresh_id else strip id
  ]
