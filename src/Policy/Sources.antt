-- ===== src/Policy/Sources.antt =====
-- The gates that ask Warehouse for stock and Catalog for the quality of the product.
use bazos.Base.{
  ℕ, Option, none, some, List, [], ◌∷◌, Bool, false, ◌&&◌, ◌||◌, if◌then◌else◌, ltb, ◌==◌, codes_eq,
  option_eq, bool_eq, String, ℤ, pos, negsuc, any, to_lower, codes, truthy,
}
use bazos.Gate.{
  PolicyGateFailure, warehouse_stock_unavailable, catalog_quality_blocked,
  catalog_bundle_publication_blocked,
}
use bazos.Policy.Input.{
  fails, WarehouseReply, stock, warehouse_error, CatalogReply, ready, catalog_error, Readiness,
  ReadinessIssue,
}

abbrev pub is_positive : Option ℤ → Bool
is_positive (some (pos n)) = ltb 0 n
is_positive (some (negsuc n)) = false
is_positive none = false

unfoldable pub evaluate_stock : WarehouseReply → List PolicyGateFailure
evaluate_stock warehouse_error = fails warehouse_stock_unavailable
evaluate_stock (stock rows total) =
    if ltb 0 rows && is_positive total then [] else fails warehouse_stock_unavailable

unfoldable pub evaluate_warehouse_availability :
    Option (ℕ → WarehouseReply) → Option ℕ → List PolicyGateFailure
unfolding evaluate_stock
evaluate_warehouse_availability client none = fails warehouse_stock_unavailable
evaluate_warehouse_availability none (some product_id) = fails warehouse_stock_unavailable
evaluate_warehouse_availability (some client) (some product_id) = evaluate_stock (client product_id)

-- `String(value || '').toLowerCase()`
unfoldable pub lowered : Option String → List ℕ
unfolding to_lower
lowered none = []
lowered (some s) = to_lower s

unfoldable pub is_bundle_marker : Option String → Bool
unfolding lowered
is_bundle_marker v =
    lowered v == codes "catalog.bundle.v1"
    || lowered v == codes "bundle"
    || lowered v == codes "catalog_bundle"

unfoldable pub is_catalog_bundle_readiness : Readiness → Bool
unfolding is_bundle_marker any truthy
is_catalog_bundle_readiness r =
    any is_bundle_marker
      (r.contract_version ∷ r.contract ∷ r.policy_id ∷ r.type_name ∷ r.kind ∷ r.resource_type ∷ [])
    || truthy r.bundle_id

unfoldable pub is_blocking : ReadinessIssue → Bool
unfolding lowered
is_blocking issue = lowered issue.severity == codes "blocking"

abbrev pub issues_of : Option (List ReadinessIssue) → List ReadinessIssue
issues_of none = []
issues_of (some issues) = issues

unfoldable pub evaluate_readiness : CatalogReply → List PolicyGateFailure
evaluate_readiness catalog_error = fails catalog_quality_blocked
evaluate_readiness (ready r) =
    if is_catalog_bundle_readiness r
    then fails catalog_bundle_publication_blocked
    else (if any is_blocking (issues_of r.issues) || r.publishable == some false
        then fails catalog_quality_blocked
        else [])

unfoldable pub evaluate_catalog_product_quality :
    Option (ℕ → CatalogReply) → Option ℕ → List PolicyGateFailure
unfolding evaluate_readiness
evaluate_catalog_product_quality client none = fails catalog_quality_blocked
evaluate_catalog_product_quality none (some product_id) = fails catalog_quality_blocked
evaluate_catalog_product_quality (some client) (some product_id) =
    evaluate_readiness (client product_id)
