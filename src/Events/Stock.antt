-- ===== src/Events/Stock.antt =====
-- `handleStockEvent` and the writes that it makes. `payload` is the message.
use bazos.Base.{
  ℕ, Option, none, some, List, [], ◌∷◌, ◌++◌, Bool, true, false, ◌&&◌, ◌||◌, ◌==◌, nat_eq, codes_eq,
  if◌then◌else◌, codes, trim, decimal, ℤ, pos,
}
use bazos.Json.{Json, null, bool, number, get, given_or, first_truthy, shown_or_empty, shown}
use bazos.Store.{
  BazosAd, M, Outcome, ok, err, return, ◌>>=◌, update, bazos_ad, StockEventType, stock_updated,
  stock_out, SyncStatus, applied, StockSync, check_object, PolicyCheck, PublishStatus,
  publish_status_eq, stock_event_type_eq, sync_status_eq,
}
use bazos.Store.Loops.{for_each, catch}
use bazos.Events.{EventEnv, normalize_product_id, ads_of}

pub data AdOutcome : Type 0 where
  updated idempotent not_written : AdOutcome

abbrev pub type_text : StockEventType → List ℕ
type_text stock_updated = codes "stock.updated"
type_text stock_out = codes "stock.out"

unfoldable pub build_event_id : EventEnv → StockEventType → List ℕ → ℕ → List ℕ
unfolding decimal
build_event_id env type product_id target =
    codes "warehouse-stock-"
    ++ env.digest (type_text type ++ codes ":" ++ product_id ++ codes ":" ++ decimal target)

abbrev or_built : List ℕ → List ℕ → List ℕ
or_built [] built = built
or_built id built = id

unfoldable pub stock_event_id : EventEnv → Option Json → StockEventType → List ℕ → ℕ → List ℕ
unfolding build_event_id first_truthy shown_or_empty
stock_event_id env payload type product_id target =
    or_built (shown_or_empty (first_truthy payload (("id" ∷ []) ∷ ("eventId" ∷ []) ∷ [])))
      (build_event_id env type product_id target)

abbrev at_least_zero : Option ℤ → ℕ
at_least_zero (some (pos n)) = n
at_least_zero z = 0

-- `Number(value)`, and 0 for what is no number above 0.
unfoldable pub normalize_quantity : EventEnv → Option Json → ℕ
unfolding shown
normalize_quantity env none = 0
normalize_quantity env (some null) = 0
normalize_quantity env (some (bool true)) = 1
normalize_quantity env (some (bool false)) = 0
normalize_quantity env (some (number n)) = at_least_zero (some n.floor)
normalize_quantity env (some v) = at_least_zero (env.read_number (shown v))

abbrev pub is_applied_sync : List ℕ → ℕ → Option StockSync → Bool
is_applied_sync event_id target none = false
is_applied_sync event_id target (some sync) =
    sync.event_id == event_id && (sync.target_quantity == target && sync.status == applied)

abbrev pub is_projected : List ℕ → ℕ → BazosAd → Bool
is_projected event_id target ad =
    is_applied_sync event_id target (check_object ad.last_policy_check).warehouse_stock_sync

-- What is written of an event, from the row as it was read.
abbrev pub sync_of : ℕ → List ℕ → StockEventType → ℕ → SyncStatus → BazosAd → PolicyCheck
sync_of now event_id type target status ad = record (check_object ad.last_policy_check) {
  warehouse_stock_sync = some (record {
    event_id = event_id;
    event_type = type;
    status = status;
    target_quantity = target;
    previous_quantity = ad.stock_quantity;
    previous_is_active = ad.is_active;
    previous_publish_status = ad.publish_status;
    at = now;
  });
}

abbrev pub is_stock_out_sync : Option StockSync → Bool
is_stock_out_sync none = false
is_stock_out_sync (some sync) = sync.event_type == stock_out

abbrev pub was_stock_out : BazosAd → Bool
was_stock_out ad =
    ad.publish_status == PublishStatus.deleted
    && is_stock_out_sync (check_object ad.last_policy_check).warehouse_stock_sync

-- `buildAdStockProjection`, on the row that is written.
unfoldable pub project_stock : ℕ → List ℕ → StockEventType → ℕ → BazosAd → BazosAd → BazosAd
project_stock now event_id type target ad row =
    let check = some (sync_of now event_id type target applied ad) in
    if type == stock_out || target == 0
    then record row {
      stock_quantity = target;
      last_policy_check = check;
      is_active = false;
      publish_status = PublishStatus.deleted;
      challenge_state = none;
    }
    else record row {
      stock_quantity = target;
      last_policy_check = check;
      is_active = true;
      publish_status = if was_stock_out ad then PublishStatus.draft else row.publish_status;
    }

abbrev pub record_stock_sync_failure : ℕ → List ℕ → StockEventType → ℕ → BazosAd → M BazosAd
record_stock_sync_failure now event_id type target ad = update bazos_ad ad.id λ row. record row {
  last_policy_check = some (sync_of now event_id type target SyncStatus.failed ad);
}

abbrev pub settle : ℕ → List ℕ → StockEventType → ℕ → BazosAd → Outcome BazosAd → M AdOutcome
settle now event_id type target ad (ok row) = return updated
settle now event_id type target ad (err e) = do
  _ ← catch (record_stock_sync_failure now event_id type target ad)
  return not_written

unfoldable pub apply_to_ad : ℕ → List ℕ → StockEventType → ℕ → BazosAd → M AdOutcome
unfolding project_stock
apply_to_ad now event_id type target ad =
    if is_projected event_id target ad then return idempotent else (do
      r ← catch (update bazos_ad ad.id (project_stock now event_id type target ad))
      settle now event_id type target ad r)

unfoldable pub apply_warehouse_stock_event :
    EventEnv → Option Json → List ℕ → ℕ → StockEventType → M (List AdOutcome)
unfolding stock_event_id
apply_warehouse_stock_event env payload product_id target type = do
  ads ← ads_of env (env.read_id product_id)
  for_each (apply_to_ad env.now (stock_event_id env payload type product_id target) type target) ads

unfoldable pub handle_stock_event : EventEnv → Option Json → M (List AdOutcome)
unfolding normalize_product_id normalize_quantity given_or get trim first_truthy shown_or_empty
handle_stock_event env payload =
    let product_id =
      normalize_product_id (given_or (get payload "productId") (get payload "catalogProductId")) in
    let type =
      trim (shown_or_empty (first_truthy payload (("type" ∷ []) ∷ ("routingKey" ∷ []) ∷ []))) in
    if product_id == []
    then return []
    else (if type == codes "stock.updated"
        then apply_warehouse_stock_event env payload product_id
            (normalize_quantity env (get payload "available")) stock_updated
        else (if type == codes "stock.out"
            then apply_warehouse_stock_event env payload product_id 0 stock_out
            else return []))
