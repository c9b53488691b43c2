-- ===== src/Examples/Gateways.antt =====
-- Runs of platform_gateway's routing, startup checks and service on small inputs.
use superoffice_ai_support_m.Common.{
  ◌&&◌, ℕ, ◌≡◌, refl, ◌↔◌, ◌⊎◌, true, false, some, none, [], ◌∷◌, ◌++◌, Text, codes, strip,
  is_blank, lookup, lookup_or, has_key, put, member, text_eq, pos, ◌≤ℤ◌, ok,
}
use superoffice_ai_support_m.Security.Models.{SecurityContext}
use superoffice_ai_support_m.Security.Rbac.{
  ToolPermissionRule, load_and_validate_policy, evaluate_policy, production_write,
  attachment_access, attachment_tool, write_classifications, caller_rank, required_rank,
}
use superoffice_ai_support_m.Gateway.Routing.{
  ToolRouteDefinition, GatewayRoutingTable, superoffice, from_routes, found_route, get_route,
  has_route,
}
use superoffice_ai_support_m.Gateway.Routing.Lookup.{route_named, get_route-from_routes}
use superoffice_ai_support_m.Gateway.Registry.{keys, validate_3way_tool_inventory}
use superoffice_ai_support_m.Gateway.Registry.Inventory.{validate_3way_tool_inventory_iff}
use superoffice_ai_support_m.Gateway.Contracts.{
  GatewayState, GatewayService, ToolCall, fits_label, resolve_id, gave,
}
use superoffice_ai_support_m.Gateway.Service.{request_for, handle_tool_call}
use superoffice_ai_support_m.Gateway.Service.Perimeter.{
  Passes, handle_tool_call_sound, handle_tool_call_complete,
}
use superoffice_ai_support_m.Gateway.Service.Audit.{Ends, HeaderEscapes, handle_tool_call-Audited}
use superoffice_ai_support_m.Gateway.Service.Loaded.{loaded_gateway_guards}
use superoffice_ai_support_m.Examples.Policies.{small_policy, small_file, engine, caller}

abbrev ticket_route : ToolRouteDefinition
ticket_route = record {
  tool_name = codes "get_ticket";
  target_server = superoffice;
  endpoint_path = codes "/mcp";
  route_timeout = none;
}

abbrev sync_route : ToolRouteDefinition
sync_route = record ticket_route { tool_name = codes "sync_codebase" }

abbrev pub table : GatewayRoutingTable
table = (codes "get_ticket", ticket_route) ∷ (codes "sync_codebase", sync_route) ∷ []

get_route-from_routes_example :
    (get_route table (codes " get_ticket")
      ≡ found_route
          (strip (codes " get_ticket"))
          (route_named (strip (codes " get_ticket")) (ticket_route ∷ sync_route ∷ [])))
    × (has_route table (codes " get_ticket")
        ≡ elim (route_named (strip (codes " get_ticket")) (ticket_route ∷ sync_route ∷ [])) [
          | none ↦ false
          | some _ ↦ true
        ])
    × (get_route table (strip (codes " get_ticket")) ≡ get_route table (codes " get_ticket"))
unfolding from_routes has_key put strip text_eq
get_route-from_routes_example =
    get_route-from_routes (ticket_route ∷ sync_route ∷ []) table (codes " get_ticket") refl

validate_3way_tool_inventory_iff_example :
    (validate_3way_tool_inventory table small_policy (codes "get_ticket" ∷ []) ≡ ok tt) ↔ (
      ((name : Text) → member name (keys table) ≡ true → has_key name small_policy.tools ≡ true)
      × ((name : Text)
          → member name (keys table) ≡ true
          → member name (codes "get_ticket" ∷ []) ≡ true)
      × ((name : Text)
          → member name (codes "get_ticket" ∷ []) ≡ true
          → member name (keys table) ≡ true))
validate_3way_tool_inventory_iff_example =
    validate_3way_tool_inventory_iff table small_policy (codes "get_ticket" ∷ [])

abbrev context : SecurityContext
context = record caller { attributes = (production_write, true) ∷ [] }

abbrev service : GatewayService ℕ
service = record {
  routing_table = table;
  authorizer = engine;
  authenticate = λ header. gave context;
  dispatch = λ route request. gave (record {
    tool_name = request.tool_name;
    success = true;
    result = some 7;
    error = none;
    correlation_id = request.correlation_id;
  });
  sanitizer = some (λ n. n);
  empty_arguments = 0;
}

abbrev a_call : ToolCall ℕ
a_call = record {
  tool_name = codes "sync_codebase";
  arguments = some 3;
  authorization_header = some (codes "Bearer x");
  correlation_id = none;
  client_ip = none;
  fresh_id = codes "c-1";
  now = 0;
}

abbrev state : GatewayState ℕ
state = record { rate_limiter = none; audit_sink = some []; dispatched = [] }

handle_tool_call_sound_example :
    ((handle_tool_call service a_call state).0.dispatched ≡ state.dispatched)
    ⊎ ((c : SecurityContext) × (r : ToolRouteDefinition) × Passes service a_call none c r
        × ((handle_tool_call service a_call state).0.dispatched
            ≡ state.dispatched ++ request_for service a_call c ∷ []))
handle_tool_call_sound_example = handle_tool_call_sound service a_call state

a_call-Passes : Passes service a_call none context sync_route
unfolding is_blank has_route get_route evaluate_policy fits_label resolve_id has_key text_eq lookup
    caller_rank lookup_or required_rank member
a_call-Passes = record {
  header = codes "Bearer x";
  presented = refl;
  present = refl;
  authenticated = refl;
  listed = refl;
  routed = refl;
  authorized = refl;
  in_limit = λ l h. cc;
  labelled = refl;
}

handle_tool_call_complete_example :
    (handle_tool_call service a_call state).0.dispatched
    ≡ state.dispatched ++ request_for service a_call context ∷ []
handle_tool_call_complete_example =
    handle_tool_call_complete service a_call state context sync_route a_call-Passes

labels_fit : (fits_label a_call.tool_name && fits_label (resolve_id a_call)) ≡ true
unfolding fits_label resolve_id strip
labels_fit = refl

handle_tool_call-Audited_example :
    Ends service a_call [] labels_fit
      (handle_tool_call service a_call state)
      (HeaderEscapes service a_call [] labels_fit a_call.authorization_header)
handle_tool_call-Audited_example = handle_tool_call-Audited service a_call [] labels_fit state refl

loaded_gateway_guards_example :
    ((handle_tool_call service a_call state).0.dispatched ≡ state.dispatched)
    ⊎ ((c : SecurityContext) × ((handle_tool_call service a_call state).0.dispatched
          ≡ state.dispatched ++ request_for service a_call c ∷ [])
        × ((header : Text) × (a_call.authorization_header ≡ some header)
            × (service.authenticate header ≡ gave c))
        × (rule : ToolPermissionRule) × (lookup a_call.tool_name service.authorizer.policy.tools
            ≡ some rule)
        × (member rule.classification write_classifications ≡ true
            → lookup_or production_write c.attributes false ≡ true)
        × (a_call.tool_name ≡ attachment_tool
            → (lookup_or attachment_access c.attributes false ≡ true)
              × (service.authorizer.attachment_access_enabled ≡ true)
              × (lookup_or (codes "L3") service.authorizer.policy.roles_hierarchy (pos 99)
                  ≤ℤ caller_rank service.authorizer.policy c.principal.role)))
unfolding load_and_validate_policy has_key put text_eq member strip
loaded_gateway_guards_example = loaded_gateway_guards (λ s. s) small_file service a_call state refl
