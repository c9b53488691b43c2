-- ===== src/Gateway/Registry/Inventory.antt =====
-- The startup checks of platform_gateway/registry.py.
use superoffice_ai_support_m.Common.{
  ◌≡◌, refl, sym, ◌∙◌, ◌↔◌, Bool, true, not, List, [], ◌∷◌, Text, has_key, member, keep, is_empty,
  all, all_iff, ok, ◌>>◌, arith,
}
use superoffice_ai_support_m.Security.Rbac.{RbacPolicySchema}
use superoffice_ai_support_m.Gateway.Routing.{GatewayRoutingTable}
use superoffice_ai_support_m.Gateway.Registry.{
  InventoryError, keys, refuse_missing, validate_3way_tool_inventory, missing_rbac,
  missing_in_backend, unrouted_in_backend,
}

keep_empty : (p : Text → Bool) (xs : List Text) → is_empty (keep (λ x. not (p x)) xs) ≡ all p xs
keep_empty p [] = refl
keep_empty p (x ∷ xs) = ground (arith, keep_empty p xs)

-- The check passes exactly if every route has a policy rule and a backend, and every tool of a
-- backend has a route.
pub validate_3way_tool_inventory_iff :
    (table : GatewayRoutingTable) (policy : RbacPolicySchema) (backend : List Text)
    → (validate_3way_tool_inventory table policy backend ≡ ok tt) ↔ (
        ((name : Text) → member name (keys table) ≡ true → has_key name policy.tools ≡ true)
        × ((name : Text) → member name (keys table) ≡ true → member name backend ≡ true)
        × ((name : Text) → member name backend ≡ true → member name (keys table) ≡ true))
unfolding validate_3way_tool_inventory
validate_3way_tool_inventory_iff table policy backend =
    let routes = keys table in
    let (r1, l1) = all_iff (λ name. has_key name policy.tools) routes in
    let (r2, l2) = all_iff (λ name. member name backend) routes in
    let (r3, l3) = all_iff (λ name. member name routes) backend in
    let e1 = keep_empty (λ name. has_key name policy.tools) routes in
    let e2 = keep_empty (λ name. member name backend) routes in
    let e3 = keep_empty (λ name. member name routes) backend in
    (
      (λ h.
          let (a, b, c) = passed _ _ _ missing_rbac missing_in_backend unrouted_in_backend h in
          (r1 (sym e1 ∙ a), r2 (sym e2 ∙ b), r3 (sym e3 ∙ c))),
      (λ (a, b, c). rw (e1 ∙ l1 a, e2 ∙ l2 b, e3 ∙ l3 c)),
    )
  where
    passed :
        (xs ys zs : List Text) (f g h : List Text → InventoryError)
        → (refuse_missing xs f >> (refuse_missing ys g >> refuse_missing zs h)) ≡ ok tt
        → (is_empty xs ≡ true) × (is_empty ys ≡ true) × (is_empty zs ≡ true)
    passed xs ys zs f g h e = (ground arith, ground arith, ground arith)
