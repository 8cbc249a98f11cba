-- ===== src/Events/Catalog.antt =====
-- `handleCatalogProductEvent`: an event after which a product is not to be offered disables its ads.
use bazos.Base.{
  ℕ, Option, none, some, List, [], ◌∷◌, ◌++◌, Bool, false, ◌&&◌, String, ◌==◌, codes_eq,
  if◌then◌else◌, codes, trim,
}
use bazos.Json.{
  Json, bool, given_or, path, first_given, first_truthy, shown_or_empty, shown_if_given,
  boolean_false, trimmed_lower,
}
use bazos.Store.{
  BazosAd, M, return, ◌>>=◌, update, bazos_ad, UnavailableReason, catalog_product_deleted,
  catalog_product_archived, catalog_product_inactive, catalog_product_not_sellable, CatalogSync,
  check_object, PublishStatus,
}
use bazos.Store.Loops.{for_each}
use bazos.Events.{EventEnv, normalize_product_id, ads_of}
use bazos.Events.Stock.{AdOutcome, updated, idempotent}

abbrev product_id_paths : List (List String)
product_id_paths =
    ("catalogProductId" ∷ [])
    ∷ ("productId" ∷ [])
    ∷ ("payload" ∷ "catalogProductId" ∷ [])
    ∷ ("payload" ∷ "productId" ∷ [])
    ∷ ("aggregate" ∷ "id" ∷ [])
    ∷ ("payload" ∷ "aggregate" ∷ "id" ∷ [])
    ∷ ("data" ∷ "catalogProductId" ∷ [])
    ∷ ("data" ∷ "productId" ∷ [])
    ∷ ("data" ∷ "product" ∷ "catalogProductId" ∷ [])
    ∷ ("data" ∷ "product" ∷ "id" ∷ [])
    ∷ ("after" ∷ "id" ∷ [])
    ∷ ("payload" ∷ "after" ∷ "id" ∷ [])
    ∷ ("data" ∷ "after" ∷ "id" ∷ [])
    ∷ []

unfoldable pub event_type_of : Option Json → List ℕ
unfolding first_truthy shown_or_empty trim
event_type_of e = trim (
    shown_or_empty (
      first_truthy e
        (("type" ∷ []) ∷ ("eventType" ∷ []) ∷ ("name" ∷ []) ∷ ("routingKey" ∷ []) ∷ [])))

-- A Boolean as it is, and nothing else.
abbrev if_boolean : Option Json → Option Json
if_boolean (some (bool b)) = some (bool b)
if_boolean v = none

unfoldable pub after_sellable : Option Json → Option Json
unfolding given_or first_given path
after_sellable e =
    given_or
      (first_given e (
        ("afterSellable" ∷ [])
        ∷ ("sellable" ∷ [])
        ∷ ("payload" ∷ "afterSellable" ∷ [])
        ∷ ("payload" ∷ "sellable" ∷ [])
        ∷ ("payload" ∷ "after" ∷ "sellable" ∷ [])
        ∷ ("data" ∷ "afterSellable" ∷ [])
        ∷ ("data" ∷ "sellable" ∷ [])
        ∷ ("data" ∷ "change" ∷ "afterSellable" ∷ [])
        ∷ ("data" ∷ "product" ∷ "sellable" ∷ [])
        ∷ ("data" ∷ "product" ∷ "isSellable" ∷ [])
        ∷ []))
      (given_or (if_boolean (path e ("data" ∷ "product" ∷ "isActive" ∷ [])))
        (first_given e (("data" ∷ "after" ∷ "sellable" ∷ []) ∷ ("after" ∷ "sellable" ∷ []) ∷ [])))

unfoldable pub after_active : Option Json → Option Json
unfolding first_given
after_active e = first_given e (
    ("afterActive" ∷ [])
    ∷ ("isActive" ∷ [])
    ∷ ("active" ∷ [])
    ∷ ("payload" ∷ "afterActive" ∷ [])
    ∷ ("payload" ∷ "isActive" ∷ [])
    ∷ ("payload" ∷ "active" ∷ [])
    ∷ ("payload" ∷ "after" ∷ "isActive" ∷ [])
    ∷ ("payload" ∷ "after" ∷ "active" ∷ [])
    ∷ ("data" ∷ "afterActive" ∷ [])
    ∷ ("data" ∷ "isActive" ∷ [])
    ∷ ("data" ∷ "active" ∷ [])
    ∷ ("data" ∷ "product" ∷ "isActive" ∷ [])
    ∷ ("data" ∷ "product" ∷ "active" ∷ [])
    ∷ ("data" ∷ "after" ∷ "isActive" ∷ [])
    ∷ ("data" ∷ "after" ∷ "active" ∷ [])
    ∷ ("after" ∷ "isActive" ∷ [])
    ∷ ("after" ∷ "active" ∷ [])
    ∷ [])

unfoldable pub after_status : Option Json → List ℕ
unfolding first_given shown_if_given trimmed_lower
after_status e = trimmed_lower (
    shown_if_given (
      first_given e (
        ("afterStatus" ∷ [])
        ∷ ("status" ∷ [])
        ∷ ("payload" ∷ "afterStatus" ∷ [])
        ∷ ("payload" ∷ "status" ∷ [])
        ∷ ("payload" ∷ "after" ∷ "status" ∷ [])
        ∷ ("data" ∷ "afterStatus" ∷ [])
        ∷ ("data" ∷ "status" ∷ [])
        ∷ ("data" ∷ "change" ∷ "afterStatus" ∷ [])
        ∷ ("data" ∷ "change" ∷ "afterLifecycle" ∷ [])
        ∷ ("data" ∷ "product" ∷ "lifecycle" ∷ [])
        ∷ ("data" ∷ "product" ∷ "status" ∷ [])
        ∷ ("data" ∷ "after" ∷ "status" ∷ [])
        ∷ ("after" ∷ "status" ∷ [])
        ∷ [])))

unfoldable pub non_offerable_reason : List ℕ → Option Json → Option UnavailableReason
unfolding after_sellable after_active after_status boolean_false
non_offerable_reason type e =
    if type == codes "catalog.product.deleted.v1"
    then some catalog_product_deleted
    else (if type == codes "catalog.product.archived.v1"
        then some catalog_product_archived
        else (if type == codes "catalog.product.inactive.v1"
            then some catalog_product_inactive
            else (if type == codes "catalog.product.sellability_changed.v1"
                  && boolean_false (after_sellable e)
                then some catalog_product_not_sellable
                else (if after_status e == codes "deleted"
                    then some catalog_product_deleted
                    else (if after_status e == codes "archived"
                        then some catalog_product_archived
                        else (if after_status e == codes "inactive"
                            then some catalog_product_inactive
                            else (if boolean_false (after_active e)
                                then some catalog_product_inactive
                                else (if boolean_false (after_sellable e)
                                    then some catalog_product_not_sellable
                                    else none))))))))

abbrev pub reason_text : UnavailableReason → List ℕ
reason_text UnavailableReason.catalog_product_missing = codes "catalog_product_missing"
reason_text catalog_product_archived = codes "catalog_product_archived"
reason_text catalog_product_deleted = codes "catalog_product_deleted"
reason_text catalog_product_inactive = codes "catalog_product_inactive"
reason_text catalog_product_not_sellable = codes "catalog_product_not_sellable"
reason_text UnavailableReason.warehouse_stock_unavailable = codes "warehouse_stock_unavailable"

abbrev or_digest : List ℕ → List ℕ → List ℕ
or_digest [] built = built
or_digest id built = id

unfoldable pub catalog_event_id :
    EventEnv → Option Json → List ℕ → List ℕ → UnavailableReason → List ℕ
unfolding first_truthy shown_or_empty trim
catalog_event_id env e type product_id reason =
    or_digest (trim (shown_or_empty (first_truthy e (("eventId" ∷ []) ∷ ("id" ∷ []) ∷ [])))) (
      codes "catalog-availability-"
      ++ env.digest (type ++ codes ":" ++ product_id ++ codes ":" ++ reason_text reason))

abbrev pub is_catalog_sync_of : List ℕ → Option CatalogSync → Bool
is_catalog_sync_of event_id none = false
is_catalog_sync_of event_id (some sync) = sync.event_id == event_id

abbrev pub is_recorded : List ℕ → BazosAd → Bool
is_recorded event_id ad =
    is_catalog_sync_of event_id
      (check_object ad.last_policy_check).catalog_product_availability_sync

abbrev pub catalog_sync_of : ℕ → List ℕ → List ℕ → UnavailableReason → BazosAd → CatalogSync
catalog_sync_of now event_id type reason ad = record {
  event_id = event_id;
  event_type = type;
  reason = reason;
  previous_quantity = ad.stock_quantity;
  previous_is_active = ad.is_active;
  previous_publish_status = ad.publish_status;
  previous_challenge_state = ad.challenge_state;
  at = now;
}

abbrev pub take_off_sale : ℕ → List ℕ → List ℕ → UnavailableReason → BazosAd → BazosAd → BazosAd
take_off_sale now event_id type reason ad row = record row {
  stock_quantity = 0;
  is_active = false;
  publish_status = PublishStatus.deleted;
  challenge_state = none;
  last_policy_check = some (record (check_object ad.last_policy_check) {
    catalog_product_availability_sync = some (catalog_sync_of now event_id type reason ad);
  });
}

unfoldable pub disable_one : ℕ → List ℕ → List ℕ → UnavailableReason → BazosAd → M AdOutcome
disable_one now event_id type reason ad =
    if is_recorded event_id ad
    then return idempotent
    else (do _ ← update bazos_ad ad.id (take_off_sale now event_id type reason ad); return updated)

unfoldable pub apply_non_offerable_catalog_event :
    EventEnv → Option Json → List ℕ → List ℕ → UnavailableReason → M (List AdOutcome)
unfolding catalog_event_id
apply_non_offerable_catalog_event env e type product_id reason = do
  ads ← ads_of env (env.read_id product_id)
  for_each (disable_one env.now (catalog_event_id env e type product_id reason) type reason) ads

abbrev pub apply_if_non_offerable :
    EventEnv → Option Json → List ℕ → List ℕ → Option UnavailableReason → M (List AdOutcome)
apply_if_non_offerable env e type product_id none = return []
apply_if_non_offerable env e type product_id (some reason) =
    apply_non_offerable_catalog_event env e type product_id reason

unfoldable pub handle_catalog_product_event : EventEnv → Option Json → M (List AdOutcome)
unfolding event_type_of normalize_product_id first_given non_offerable_reason
handle_catalog_product_event env e =
    let type = event_type_of e in
    let product_id = normalize_product_id (first_given e product_id_paths) in
    if product_id == []
    then return []
    else apply_if_non_offerable env e type product_id (non_offerable_reason type e)
