-- ===== src/Gateway/Routing.antt =====
-- platform_gateway/contracts/routing.py. The timeout of a route is kept in the clock's ticks; the
-- field constraints on its texts are pydantic's.
pub mod Lookup
use superoffice_ai_support_m.Common.{
  ℕ, Bool, Option, none, some, List, [], ◌∷◌, Text, strip, Dict, lookup, has_key, put, Result, ok,
  err, if◌then◌else◌,
}

pub data TargetServer : Type 0 where
  superoffice diagnostics knowledge infrastructure investigation : TargetServer

pub record ToolRouteDefinition : Type 0 where
  pub tool_name : Text
  pub target_server : TargetServer
  pub endpoint_path : Text
  pub route_timeout : Option ℕ

pub data RoutingError : Type 0 where
  duplicate_route : Text → RoutingError
  route_not_found : Text → RoutingError

abbrev pub GatewayRoutingTable : Type 0
GatewayRoutingTable = Dict ToolRouteDefinition

-- The loop of from_routes, over the map built so far.
unfoldable pub register_routes :
    List ToolRouteDefinition → GatewayRoutingTable → Result RoutingError GatewayRoutingTable
register_routes [] route_map = ok route_map
register_routes (route ∷ routes) route_map =
    if has_key (strip route.tool_name) route_map
    then err (duplicate_route (strip route.tool_name))
    else register_routes routes (put (strip route.tool_name) route route_map)

unfoldable pub from_routes : List ToolRouteDefinition → Result RoutingError GatewayRoutingTable
unfolding register_routes
from_routes routes = register_routes routes []

unfoldable pub found_route :
    Text → Option ToolRouteDefinition → Result RoutingError ToolRouteDefinition
found_route name none = err (route_not_found name)
found_route name (some route) = ok route

unfoldable pub get_route : GatewayRoutingTable → Text → Result RoutingError ToolRouteDefinition
unfolding found_route
get_route table tool_name = found_route (strip tool_name) (lookup (strip tool_name) table)

unfoldable pub has_route : GatewayRoutingTable → Text → Bool
has_route table tool_name = has_key (strip tool_name) table
