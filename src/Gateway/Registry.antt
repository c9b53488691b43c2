-- ===== src/Gateway/Registry.antt =====
-- platform_gateway/registry.py: the endpoints, the routes that the gateway serves, and the checks
-- at startup that routes, policy and backends name the same tools. The configured URLs and the
-- tool names of the backends are arguments.
pub mod Inventory
use superoffice_ai_support_m.Common.{
  Bool, true, false, not, ◌&&◌, none, String, List, [], ◌∷◌, Text, codes, Dict, has_key, member,
  is_empty, keep, ◌==◌, Result, ok, err, ◌>>=◌, ◌>>◌, if◌then◌else◌,
}
use superoffice_ai_support_m.Gateway.Routing.{
  TargetServer, superoffice, diagnostics, knowledge, infrastructure, investigation,
  ToolRouteDefinition, RoutingError, GatewayRoutingTable, from_routes,
}
use superoffice_ai_support_m.Security.Rbac.{RbacPolicySchema, ToolPermissionRule}

pub record GatewaySettings : Type 0 where
  pub superoffice_mcp_url : Text
  pub diagnostics_mcp_url : Text
  pub knowledge_mcp_url : Text
  pub infrastructure_mcp_url : Text
  pub investigation_mcp_url : Text

-- url.rstrip("/")
unfoldable pub rstrip_slash : Text → Text
rstrip_slash [] = []
rstrip_slash (c ∷ s) =
    let rest = rstrip_slash s in if is_empty rest && c == b'/' then [] else c ∷ rest

-- Every member of TargetServer is configured, so the lookup never fails.
unfoldable pub get_server_url : GatewaySettings → TargetServer → Text
unfolding rstrip_slash
get_server_url settings superoffice = rstrip_slash settings.superoffice_mcp_url
get_server_url settings diagnostics = rstrip_slash settings.diagnostics_mcp_url
get_server_url settings knowledge = rstrip_slash settings.knowledge_mcp_url
get_server_url settings infrastructure = rstrip_slash settings.infrastructure_mcp_url
get_server_url settings investigation = rstrip_slash settings.investigation_mcp_url

abbrev mcp_route : String → TargetServer → ToolRouteDefinition
mcp_route tool_name target_server = record {
  tool_name = codes tool_name;
  target_server = target_server;
  endpoint_path = codes "/mcp";
  route_timeout = none;
}

pub canonical_routes : List ToolRouteDefinition
canonical_routes =
    mcp_route "search_knowledge" knowledge
    ∷ mcp_route "get_runbook" knowledge
    ∷ mcp_route "find_known_issues" knowledge
    ∷ mcp_route "get_ticket" superoffice
    ∷ mcp_route "search_tickets" superoffice
    ∷ mcp_route "get_ticket_messages" superoffice
    ∷ mcp_route "list_attachments" superoffice
    ∷ mcp_route "get_company" superoffice
    ∷ mcp_route "find_companies" superoffice
    ∷ mcp_route "get_person" superoffice
    ∷ mcp_route "find_persons" superoffice
    ∷ mcp_route "sync_codebase" superoffice
    ∷ mcp_route "list_extra_tables" superoffice
    ∷ mcp_route "get_extra_table_schema" superoffice
    ∷ mcp_route "query_extra_table" superoffice
    ∷ mcp_route "get_ticket_audit_trail" superoffice
    ∷ mcp_route "search_codebase" superoffice
    ∷ mcp_route "get_codebase_file" superoffice
    ∷ mcp_route "get_screen_details" superoffice
    ∷ mcp_route "get_associate_details" superoffice
    ∷ mcp_route "get_ticket_metadata_lists" superoffice
    ∷ mcp_route "list_system_events_and_triggers" superoffice
    ∷ mcp_route "get_database_health" diagnostics
    ∷ mcp_route "find_slow_queries" diagnostics
    ∷ mcp_route "get_ticket_diagnostic_record" diagnostics
    ∷ mcp_route "search_logs" diagnostics
    ∷ mcp_route "find_deadlocks" diagnostics
    ∷ mcp_route "find_blocking_sessions" diagnostics
    ∷ mcp_route "investigate_incident" investigation
    ∷ []

unfoldable pub create_default_routing_table : Result RoutingError GatewayRoutingTable
unfolding canonical_routes
create_default_routing_table = from_routes canonical_routes

-- The tools that a ConfigurationError names.
pub data InventoryError : Type 0 where
  missing_rbac missing_in_backend unrouted_in_backend : List Text → InventoryError

unfoldable pub keys {ℓ} : {V : Type ℓ} → Dict V → List Text
keys [] = []
keys ((key, _) ∷ d) = key ∷ keys d

-- Raises the error over the missing tools if there are any.
refuse_missing : List Text → (List Text → InventoryError) → Result InventoryError (Unit {0})
refuse_missing missing error = if is_empty missing then ok tt else err (error missing)

unfoldable pub validate_routes_against_rbac :
    GatewayRoutingTable → RbacPolicySchema → Result InventoryError (Unit {0})
unfolding refuse_missing
validate_routes_against_rbac routing_table policy =
    refuse_missing (keep (λ name. not (has_key name policy.tools)) (keys routing_table))
      missing_rbac

unfoldable pub validate_3way_tool_inventory :
    GatewayRoutingTable → RbacPolicySchema → List Text → Result InventoryError (Unit {0})
unfolding validate_routes_against_rbac
validate_3way_tool_inventory routing_table policy backend_tool_names = do
  validate_routes_against_rbac routing_table policy
  refuse_missing (keep (λ name. not (member name backend_tool_names)) (keys routing_table))
      missing_in_backend
  refuse_missing (keep (λ name. not (member name (keys routing_table))) backend_tool_names)
      unrouted_in_backend
