-- ===== src/Policy/GateLaws.antt =====
-- Each gate pushes no failure exactly when its condition holds.
use bazos.Base.{
  ℕ, ◌<◌, ◌≡◌, ◌↔◌, Option, none, some, List, [], true, false, String, pos, negsuc, codes, arith,
  ==-iff, any-eq-true_iff, any-eq-false_iff, codes_eq,
}
use bazos.Store.{
  BazosAd, BazosCategory, BazosIdentity, BazosIdentityConsent, BazosIdentityCategoryCadence,
  verified, clear, SessionState,
}
use bazos.Policy.Input.{
  max_active_ads, ReadinessIssue, Evidence, WarehouseReply, stock, warehouse_error, CatalogReply,
  ready, catalog_error,
}
use bazos.Policy.Gates.{
  consent_gate, cooldown_gate, duplicate_gate, public_duplicate_gate, content_policy_gate,
  category_gate, is_local_duplicate, is_mapping_of,
}
use bazos.Policy.Sources.{
  evaluate_stock, evaluate_readiness, evaluate_warehouse_availability,
  evaluate_catalog_product_quality, is_blocking, issues_of, lowered,
}
use bazos.Policy.Permitted.{
  IsCurrentConsent, IsAhead, HasPassed, HasCooled, IsTwin, HasNoTwin, IsInStock, IsStocked,
  IsBlocking, IsReady, IsPublishable, IsProven, IsMapped,
}
use bazos.Policy.{identity_gates}

pub consent_gate_iff :
    (c : Option BazosIdentityConsent) → (consent_gate c ≡ []) ↔ IsCurrentConsent c
unfolding consent_gate
consent_gate_iff c = ground arith

pub cooldown_gate_iff :
    (now : ℕ) (c : Option BazosIdentityCategoryCadence)
    → (cooldown_gate now c ≡ []) ↔ HasCooled now c
unfolding cooldown_gate
cooldown_gate_iff now c = ground arith

pub is_local_duplicate_iff :
    (i p : ℕ) (ad_id : Option ℕ) (a : BazosAd)
    → (is_local_duplicate i p ad_id a ≡ true) ↔ IsTwin i p ad_id a
is_local_duplicate_iff i p ad_id a = ground arith

pub duplicate_gate_iff :
    (i : ℕ) (p ad_id : Option ℕ) (ads : List BazosAd)
    → (duplicate_gate i p ad_id ads ≡ []) ↔ HasNoTwin i p ad_id ads
unfolding duplicate_gate
duplicate_gate_iff i none ad_id ads = ground arith
duplicate_gate_iff i (some p) ad_id ads =
    ground (arith, any-eq-false_iff _ _ (is_local_duplicate_iff i p ad_id) ads)

pub stock_iff : (r : WarehouseReply) → (evaluate_stock r ≡ []) ↔ IsInStock r
unfolding evaluate_stock
stock_iff warehouse_error = ground arith
stock_iff (stock rows none) = ground arith
stock_iff (stock rows (some (pos n))) = ground arith
stock_iff (stock rows (some (negsuc n))) = ground arith

pub warehouse_iff :
    (client : Option (ℕ → WarehouseReply)) (p : Option ℕ)
    → (evaluate_warehouse_availability client p ≡ []) ↔ IsStocked client p
unfolding evaluate_warehouse_availability
warehouse_iff none none = ground arith
warehouse_iff (some client) none = ground arith
warehouse_iff none (some p) = ground arith
warehouse_iff (some client) (some p) = stock_iff (client p)

pub is_blocking_iff : (issue : ReadinessIssue) → (is_blocking issue ≡ true) ↔ IsBlocking issue
unfolding is_blocking
is_blocking_iff issue = ==-iff (lowered issue.severity) (codes "blocking")

pub readiness_iff : (r : CatalogReply) → (evaluate_readiness r ≡ []) ↔ IsReady r
unfolding evaluate_readiness
readiness_iff catalog_error = ground arith
readiness_iff (ready r) =
    ground (arith, any-eq-false_iff IsBlocking is_blocking is_blocking_iff (issues_of r.issues))

pub quality_iff :
    (client : Option (ℕ → CatalogReply)) (p : Option ℕ)
    → (evaluate_catalog_product_quality client p ≡ []) ↔ IsPublishable client p
unfolding evaluate_catalog_product_quality
quality_iff none none = ground arith
quality_iff (some client) none = ground arith
quality_iff none (some p) = ground arith
quality_iff (some client) (some p) = readiness_iff (client p)

pub public_duplicate_iff :
    (now : ℕ) (e : Option Evidence) → (public_duplicate_gate now e ≡ []) ↔ IsProven now false e
unfolding public_duplicate_gate
public_duplicate_iff now e = ground arith

pub content_policy_iff :
    (now : ℕ) (e : Option Evidence) → (content_policy_gate now e ≡ []) ↔ IsProven now true e
unfolding content_policy_gate
content_policy_iff now e = ground arith

pub is_mapping_of_iff :
    (category : String) (c : BazosCategory)
    → (is_mapping_of category c ≡ true) ↔ ((c.bazos_category ≡ category) × (c.is_active ≡ true))
is_mapping_of_iff category c = ground arith

pub category_iff :
    (category : String) (cs : List BazosCategory)
    → (category_gate category cs ≡ []) ↔ IsMapped category cs
unfolding category_gate
category_iff category cs = ground (
  arith,
  any-eq-true_iff (λ c. (c.bazos_category ≡ category) × (c.is_active ≡ true))
      (is_mapping_of category) (is_mapping_of_iff category) cs,
)

pub identity_gates_iff :
    (now : ℕ) (i : BazosIdentity)
    → (identity_gates now i ≡ []) ↔ (
        (i.status ≡ verified)
        × (i.review_state ≡ clear)
        × IsAhead now i.verification_expires_at
        × (i.session_state ≡ SessionState.active)
        × (i.active_ad_count < max_active_ads)
        × HasPassed now i.next_publish_not_before)
unfolding identity_gates
identity_gates_iff now i = ground arith
