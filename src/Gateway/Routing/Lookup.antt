-- ===== src/Gateway/Routing/Lookup.antt =====
-- What a table built by from_routes of platform_gateway/contracts/routing.py answers.
use superoffice_ai_support_m.Common.{
  ◌≡◌, refl, ◌↔◌, ◌⊎◌, inl, inr, true, false, Option, none, some, List, [], ◌∷◌, Text, Distinct,
  member, ◌||◌, strip, strip-strip, text_eq, text_eq_iff, lookup, lookup-put, has_key,
  has_key-lookup, put, ok, err, if◌then◌else◌, arith, Bool-cases,
}
use superoffice_ai_support_m.Gateway.Routing.{
  ToolRouteDefinition, duplicate_route, GatewayRoutingTable, register_routes, from_routes,
  found_route, get_route, has_route,
}

-- The first of the routes whose trimmed name is `name`.
pub route_named : Text → List ToolRouteDefinition → Option ToolRouteDefinition
route_named name [] = none
route_named name (route ∷ routes) =
    if text_eq (strip route.tool_name) name then some route else route_named name routes

abbrev or_else :
    Option ToolRouteDefinition → Option ToolRouteDefinition → Option ToolRouteDefinition
or_else none other = other
or_else (some route) _ = some route

register_routes-lookup :
    (routes : List ToolRouteDefinition) (map table : GatewayRoutingTable) (name : Text)
    → register_routes routes map ≡ ok table
    → lookup name table ≡ or_else (lookup name map) (route_named name routes)
unfolding register_routes route_named
register_routes-lookup [] map table name h = let e : map ≡ table = cc in rw (← e) (ground arith)
register_routes-lookup (route ∷ routes) map table name h =
    elim (Bool-cases (has_key (strip route.tool_name) map)) [
      | inl there ↦ cc (there)
      | inr absent ↦
          let ih =
            register_routes-lookup routes (put (strip route.tool_name) route map) table name
              (rw absent at h) in
          ground (
            arith,
            ih,
            lookup-put (strip route.tool_name) name route map,
            has_key-lookup (strip route.tool_name) map,
            text_eq_iff (strip route.tool_name) name,
          )
    ]

-- In a table built from a list of routes, get_route finds for a name the route of the list whose
-- trimmed name is the trimmed name asked for, and raises RouteNotFoundError if there is none;
-- has_route answers whether get_route finds one. Spaces round either name do not matter.
pub get_route-from_routes :
    (routes : List ToolRouteDefinition) (table : GatewayRoutingTable) (name : Text)
    → from_routes routes ≡ ok table
    → (get_route table name ≡ found_route (strip name) (route_named (strip name) routes))
      × (has_route table name
          ≡ elim (route_named (strip name) routes) [ none ↦ false | some _ ↦ true ])
      × (get_route table (strip name) ≡ get_route table name)
unfolding from_routes get_route has_route
get_route-from_routes routes table name h =
    let e : lookup (strip name) table ≡ route_named (strip name) routes =
      unfold lookup in register_routes-lookup routes [] table (strip name) h in
    (rw e, rw (has_key-lookup, e), rw strip-strip)

abbrev pub names_of : List ToolRouteDefinition → List Text
names_of [] = []
names_of (route ∷ routes) = strip route.tool_name ∷ names_of routes

-- No name of the list is a key of the map.
abbrev Unused : GatewayRoutingTable → List Text → Type 0
Unused map [] = Unit
Unused map (name ∷ names) = (has_key name map ≡ false) × Unused map names

has_key-put :
    (k j : Text) (route : ToolRouteDefinition) (map : GatewayRoutingTable)
    → has_key j (put k route map) ≡ (has_key j map || text_eq k j)
has_key-put k j route map = rw (has_key-lookup, lookup-put) (ground (arith, has_key-lookup j map))

Unused-put :
    (k : Text) (route : ToolRouteDefinition) (map : GatewayRoutingTable) (names : List Text)
    → Unused (put k route map) names ↔ (Unused map names × (member k names ≡ false))
unfolding member
Unused-put k route map [] = ((λ u. (tt, refl)), (λ u. tt))
Unused-put k route map (name ∷ names) =
    let (to, from) = Unused-put k route map names in
    (
      (λ u.
          let (rest, absent) = to u.1 in
          (
            (ground (arith, has_key-put k name route map), rest),
            ground (arith, has_key-put k name route map),
          )),
      (λ (unused, absent).
          (ground (arith, has_key-put k name route map), from (unused.1, ground arith))),
    )

register_routes_cases :
    (routes : List ToolRouteDefinition) (map : GatewayRoutingTable)
    → ((Distinct (names_of routes) × Unused map (names_of routes))
        × (table : GatewayRoutingTable) × (register_routes routes map ≡ ok table))
      ⊎ (¬ (Distinct (names_of routes) × Unused map (names_of routes))
          × (name : Text) × (register_routes routes map ≡ err (duplicate_route name)))
unfolding register_routes
register_routes_cases [] map = inl ((tt, tt), map, refl)
register_routes_cases (route ∷ routes) map =
    let name = strip route.tool_name in
    let (to, from) = Unused-put name route map (names_of routes) in
    elim (Bool-cases (has_key name map)) [
      | inl there ↦ inr ((λ (d, u). (let e = u.0 in cc)), name, rw there)
      | inr absent ↦ elim (register_routes_cases routes (put name route map)) [
        | inl ((d, u), table, e) ↦
            let (unused, fresh) = to u in
            inl (((fresh, d), (absent, unused)), table, rw (absent, e))
        | inr (bad, n, e) ↦ inr ((λ (d, u). bad (d.1, from (u.1, d.0))), n, rw (absent, e))
      ]
    ]

Unused-nil : (names : List Text) → Unused [] names
unfolding has_key
Unused-nil [] = tt
Unused-nil (name ∷ names) = (refl, Unused-nil names)

-- from_routes builds a table exactly if the trimmed names of the routes are pairwise different,
-- and raises DuplicateRouteError otherwise.
from_routes_cases :
    (routes : List ToolRouteDefinition)
    → (Distinct (names_of routes) × (table : GatewayRoutingTable) × (from_routes routes ≡ ok table))
      ⊎ (¬ Distinct (names_of routes)
          × (name : Text) × (from_routes routes ≡ err (duplicate_route name)))
unfolding from_routes
from_routes_cases routes = elim (register_routes_cases routes []) [
  | inl ((d, _), table, e) ↦ inl (d, table, e)
  | inr (bad, name, e) ↦ inr ((λ d. bad (d, Unused-nil (names_of routes))), name, e)
]
