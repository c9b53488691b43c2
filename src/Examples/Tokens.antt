-- ===== src/Examples/Tokens.antt =====
-- A token, and a gateway that authenticates and sanitizes.
use superoffice_ai_support_m.Common.{
  ◌≡◌, refl, ◌↔◌, ◌⊎◌, true, false, Option, some, none, [], ◌∷◌, ◌++◌, Text, codes, Dict, lookup,
  member, pos, ℤ, Result, ok, Json, text, number, array, object, boolean, item, end_items, field,
  end_fields, null, text_eq, has_key, put, strip, all, not,
}
use superoffice_ai_support_m.Security.Models.{SecurityContext}
use superoffice_ai_support_m.Security.Rbac.{
  ToolPermissionRule, load_and_validate_policy, production_write, attachment_access,
  attachment_tool, write_classifications,
}
use superoffice_ai_support_m.Security.Jwt.{DecodeError, JwtAuthenticator, authenticate, flag}
use superoffice_ai_support_m.Security.Jwt.Claims.{Accepts}
use superoffice_ai_support_m.Security.Jwt.Acceptance.{IsAccepted, authenticate_iff}
use superoffice_ai_support_m.Security.Sanitization.{sanitize}
use superoffice_ai_support_m.Observability.{is_prohibited, validate_no_secrets}
use superoffice_ai_support_m.Observability.Secrets.{keys_of, validate_no_secrets_iff}
use superoffice_ai_support_m.Gateway.Contracts.{GatewayState, GatewayService, ToolCall, gave}
use superoffice_ai_support_m.Gateway.Service.{request_for, handle_tool_call}
use superoffice_ai_support_m.Gateway.Service.Tokens.{accepted, token_gateway_guards}
use superoffice_ai_support_m.Gateway.Service.Results.{IsSafe, handle_tool_call-IsSafe}
use superoffice_ai_support_m.Examples.Policies.{small_file, engine}
use superoffice_ai_support_m.Examples.Gateways.{table}

abbrev same : Text → Text
same s = s

abbrev claims : Dict Json
claims =
    (codes "sub", text (codes "ana"))
    ∷ (codes "role", text (codes "L2"))
    ∷ (codes "iat", number (pos 100))
    ∷ (production_write, boolean true)
    ∷ []

abbrev decode : Text → Result DecodeError (Dict Json)
decode token = ok claims

abbrev no_text : Json → Text
no_text value = []

abbrev as_number : Json → Option ℤ
as_number (number n) = some n
as_number _ = none

abbrev hourly : JwtAuthenticator
hourly = record { leeway_seconds = 60; max_token_age_seconds = some 3600 }

abbrev ana : SecurityContext
ana = record {
  principal = record {
    user_id = codes "ana";
    role = codes "L2";
    scopes = production_write ∷ [];
    auth_method = codes "jwt";
  };
  token_id = codes "tok_1";
  is_authenticated = true;
  attributes =
      (production_write, true)
      ∷ (attachment_access, false)
      ∷ (codes "issuer", false)
      ∷ (codes "audience", false)
      ∷ (codes "claims", true)
      ∷ [];
}

authenticate_iff_example :
    (authenticate same same decode no_text as_number hourly 2000
        (codes "tok_1")
        (codes "bearer abc")
      ≡ ok ana)
    ↔ IsAccepted same same decode no_text as_number hourly 2000
        (codes "tok_1")
        (codes "bearer abc")
        ana
authenticate_iff_example =
    authenticate_iff same same decode no_text as_number hourly 2000 (codes "tok_1")
      (codes "bearer abc") ana

authenticate_runs :
    authenticate same same decode no_text as_number hourly 2000 (codes "tok_1") (codes "bearer abc")
    ≡ ok ana
unfolding authenticate lookup text_eq member
authenticate_runs = refl

abbrev json_service : GatewayService Json
json_service = record {
  routing_table = table;
  authorizer = engine;
  authenticate = λ header.
      accepted (authenticate same same decode no_text as_number hourly 2000 (codes "tok_1") header);
  dispatch = λ route request. gave (record {
    tool_name = request.tool_name;
    success = true;
    result = some (object (field (codes "api_key") (text (codes "k")) end_fields));
    error = none;
    correlation_id = request.correlation_id;
  });
  sanitizer = some (sanitize same same);
  empty_arguments = null;
}

abbrev sync_call : ToolCall Json
sync_call = record {
  tool_name = codes "sync_codebase";
  arguments = none;
  authorization_header = some (codes "bearer abc");
  correlation_id = none;
  client_ip = none;
  fresh_id = codes "c-1";
  now = 0;
}

abbrev quiet_state : GatewayState Json
quiet_state = record { rate_limiter = none; audit_sink = none; dispatched = [] }

handle_tool_call-IsSafe_example :
    IsSafe same same (handle_tool_call json_service sync_call quiet_state).1
handle_tool_call-IsSafe_example =
    handle_tool_call-IsSafe same same json_service sync_call refl quiet_state

token_gateway_guards_example :
    ((handle_tool_call json_service sync_call quiet_state).0.dispatched ≡ quiet_state.dispatched)
    ⊎ ((c : SecurityContext) × (header : Text) × (a : Accepts same same decode no_text as_number
          hourly 2000
          (codes "tok_1")
          header
          c)
        × ((handle_tool_call json_service sync_call quiet_state).0.dispatched
            ≡ quiet_state.dispatched ++ request_for json_service sync_call c ∷ [])
        × (sync_call.authorization_header ≡ some header)
        × (rule : ToolPermissionRule) × (lookup sync_call.tool_name
              json_service.authorizer.policy.tools
            ≡ some rule)
        × (member rule.classification write_classifications ≡ true
            → flag production_write a.claims ≡ true)
        × (sync_call.tool_name ≡ attachment_tool → flag attachment_access a.claims ≡ true))
unfolding load_and_validate_policy has_key put text_eq member strip
token_gateway_guards_example =
    token_gateway_guards same same decode no_text as_number hourly 2000 (codes "tok_1") small_file
      json_service sync_call quiet_state refl (λ header. refl)

abbrev summary : Json
summary = object (field (codes "rows") (array (item (number (pos 3)) end_items)) end_fields)

validate_no_secrets_iff_example :
    (validate_no_secrets same summary ≡ ok tt)
    ↔ (all (λ key. not (is_prohibited same key)) (keys_of summary) ≡ true)
validate_no_secrets_iff_example = validate_no_secrets_iff same summary
