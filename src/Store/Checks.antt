-- ===== src/Store/Checks.antt =====
-- The `Json` columns `lastPolicyCheck` and `policyResult`: one JSON object that several services
-- extend. Each of its keys is a field here; the texts that are only kept as evidence are left out.
use bazos.Base.{ℕ, Option, none, some, List, Bool, String, Eq}
use bazos.Gate.{PolicyEvaluationResult}
use bazos.Store.Status.{PublishStatus, ReviewState}

pub record MediaItem : Type 0 where
  pub id : Option String
  pub url : Option String
  pub thumbnail_url : Option String
  pub alt_text : Option String
  pub title : Option String
  pub position : Option ℕ

pub record SubmissionOptions : Type 0 where
  pub rubric : Option String
  pub price_option : Option String
  pub media : Option (List MediaItem)

-- `bazosAvailabilityCheck`
pub record AvailabilityCheck : Type 0 where
  pub enabled : Bool
  pub next_check_at : Option ℕ
  pub last_checked_at : Option ℕ
  pub last_manage_opened_at : Option ℕ
  pub stopped_at : Option ℕ
  pub last_reason : Option String

-- `pendingBazosUpdate`, whose `required` is always true.
pub record PendingUpdate : Type 0 where
  pub saved_at : ℕ
  pub bazos_ad_id : String

-- `bazosDeletionVerifiedAt`, `bazosDeletionReason` and `previousPublishStatus`
pub record Deletion : Type 0 where
  pub verified_at : ℕ
  pub reason : String
  pub previous_publish_status : PublishStatus

pub data StockEventType : Type 0 where
  stock_updated stock_out : StockEventType

pub data SyncStatus : Type 0 where
  applied failed : SyncStatus

-- `warehouseStockSync`
pub record StockSync : Type 0 where
  pub event_id : List ℕ
  pub event_type : StockEventType
  pub status : SyncStatus
  pub target_quantity : ℕ
  pub previous_quantity : ℕ
  pub previous_is_active : Bool
  pub previous_publish_status : PublishStatus
  pub at : ℕ

pub data UnavailableReason : Type 0 where
  catalog_product_missing catalog_product_archived catalog_product_deleted : UnavailableReason
  catalog_product_inactive catalog_product_not_sellable : UnavailableReason
  warehouse_stock_unavailable : UnavailableReason

-- `catalogProductAvailabilitySync`, whose `status` is always `applied`.
pub record CatalogSync : Type 0 where
  pub event_id : List ℕ
  pub event_type : List ℕ
  pub reason : UnavailableReason
  pub previous_quantity : ℕ
  pub previous_is_active : Bool
  pub previous_publish_status : PublishStatus
  pub previous_challenge_state : Option ReviewState
  pub at : ℕ

-- `availabilityReconciliation`, with the texts that its `reconciliationId` is a digest of.
pub record Reconciliation : Type 0 where
  pub reason : UnavailableReason
  pub previous_quantity : ℕ
  pub previous_is_active : Bool
  pub previous_publish_status : PublishStatus
  pub previous_challenge_state : Option ReviewState
  pub at : ℕ

pub record PolicyCheck : Type 0 where
  pub result : Option PolicyEvaluationResult
  pub draft_options : Option SubmissionOptions
  pub submission_options : Option SubmissionOptions
  pub bazos_availability_check : Option AvailabilityCheck
  pub pending_bazos_update : Option PendingUpdate
  pub deletion : Option Deletion
  pub warehouse_stock_sync : Option StockSync
  pub catalog_product_availability_sync : Option CatalogSync
  pub availability_reconciliation : Option Reconciliation

abbrev pub empty_check : PolicyCheck
empty_check = record {
  result = none;
  draft_options = none;
  submission_options = none;
  bazos_availability_check = none;
  pending_bazos_update = none;
  deletion = none;
  warehouse_stock_sync = none;
  catalog_product_availability_sync = none;
  availability_reconciliation = none;
}

-- `jsonObject`
abbrev pub check_object : Option PolicyCheck → PolicyCheck
check_object none = empty_check
check_object (some c) = c

unfoldable pub StockEventType-discrete : Discrete StockEventType
StockEventType-discrete = hlevel

unfoldable pub SyncStatus-discrete : Discrete SyncStatus
SyncStatus-discrete = hlevel

instance abbrev pub stock_event_type_eq : Eq StockEventType
stock_event_type_eq = record { decides = StockEventType-discrete }

instance abbrev pub sync_status_eq : Eq SyncStatus
sync_status_eq = record { decides = SyncStatus-discrete }
