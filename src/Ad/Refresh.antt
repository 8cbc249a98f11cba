-- ===== src/Ad/Refresh.antt =====
-- `recordBazosManageOpened`, `refreshDueExternalStatus` and `refreshManagedListingOnOpen`: what is
-- done with a followed ad.
use bazos.Base.{
  ℕ, Option, none, some, Bool, true, not, ◌&&◌, ◌||◌, if◌then◌else◌, take, select, find_first, ◌==◌,
  nat_eq, string_eq, option_eq, String,
}
use bazos.Store.{
  Store, BazosAd, check_object, PublishStatus, published, publish_status_eq, M, return, ◌>>=◌, ◌>>◌,
  throw_if, bad_request, update, count, bazos_ad, bazos_identity,
}
use bazos.Monitoring.{is_tracked, set_count}
use bazos.Ad.{find_by_id_for_user}
use bazos.Ad.Tracking.{
  TrackingEnv, Listing, PublicStatus, available, gone, unclear, check_of, with_check,
  next_availability_check_at, is_managed_availability_tracking_expired, is_availability_check_due,
  schedule_next_availability_check, mark_deleted_on_bazos, disable_availability_check,
}

abbrev or_same : Option String → String → String
or_same none old = old
or_same (some s) old = if s == "" then old else s

abbrev or_same_text : Option String → Option String → Option String
or_same_text none old = old
or_same_text (some s) old = if s == "" then old else some s

abbrev or_same_price : Option ℕ → ℕ → ℕ
or_same_price none old = old
or_same_price (some n) old = n

-- `syncFromPublicListing`, without the evidence that it keeps.
unfoldable pub sync_from_public_listing : BazosAd → Listing → M BazosAd
sync_from_public_listing ad l = update bazos_ad ad.id λ row. record row {
  title = or_same l.title row.title;
  description = or_same_text l.description row.description;
  price = or_same_price l.price row.price;
  category = or_same_text l.category row.category;
  location = or_same_text l.location row.location;
  last_policy_check = some (check_object ad.last_policy_check);
}

abbrev pub reconcile_identity_count : Option ℕ → M (Unit {0})
reconcile_identity_count none = return tt
reconcile_identity_count (some id) = do
  n ← count bazos_ad (is_tracked id)
  _ ← update bazos_identity id (set_count n)
  return tt

abbrev pub status_or_failed : Option PublicStatus → PublicStatus
status_or_failed none = unclear "request_failed"
status_or_failed (some p) = p

abbrev pub is_refreshable : BazosAd → Bool
is_refreshable ad =
    not (ad.bazos_ad_id == none)
    && (ad.publish_status == published || ad.publish_status == PublishStatus.active)

pub record RefreshResult : Type 0 where
  pub checked : ℕ
  pub deleted : ℕ
  pub unknown : ℕ

abbrev pub apply_status : TrackingEnv → BazosAd → PublicStatus → M RefreshResult
apply_status env due (gone reason) = do
  _ ← mark_deleted_on_bazos env.now due reason
  reconcile_identity_count due.identity_id
  return (record { checked = 1; deleted = 1; unknown = 0 })
apply_status env due (available listing) = do
  updated ← sync_from_public_listing due listing
  _ ← schedule_next_availability_check env updated env.now "checked_available"
  reconcile_identity_count due.identity_id
  return (record { checked = 1; deleted = 0; unknown = 0 })
apply_status env due (unclear reason) = do
  _ ← schedule_next_availability_check env due env.now reason
  reconcile_identity_count due.identity_id
  return (record { checked = 1; deleted = 0; unknown = 1 })

unfoldable pub due_ad : TrackingEnv → Store → Option BazosAd
unfolding is_availability_check_due select find_first
due_ad env s =
    find_first (λ ad. is_availability_check_due ad env.now)
      (take 100 (env.by_updated_at (select is_refreshable s.ads)))

abbrev pub refresh_one : TrackingEnv → Option BazosAd → M RefreshResult
refresh_one env none = return (record { checked = 0; deleted = 0; unknown = 0 })
refresh_one env (some due) =
    apply_status env due (status_or_failed (env.fetch_bazos_public_status due))

unfoldable pub refresh_due_external_status : TrackingEnv → M RefreshResult
unfolding due_ad mark_deleted_on_bazos sync_from_public_listing schedule_next_availability_check
refresh_due_external_status env s = refresh_one env (due_ad env s) s

unfoldable pub record_bazos_manage_opened : TrackingEnv → ℕ → String → M BazosAd
unfolding find_by_id_for_user
record_bazos_manage_opened env id user_id = do
  ad ← find_by_id_for_user id user_id
  throw_if (ad.bazos_ad_id == none) bad_request
  throw_if (ad.publish_status == PublishStatus.deleted) bad_request
  update bazos_ad ad.id λ row. record row {
    last_policy_check =
        with_check
          (record (check_of ad) {
            enabled = true;
            last_manage_opened_at = some env.now;
            next_check_at = some (next_availability_check_at env env.now);
          })
          ad;
  }

abbrev open_status : TrackingEnv → BazosAd → PublicStatus → M BazosAd
open_status env ad (gone reason) = do
  deleted ← mark_deleted_on_bazos env.now ad reason
  reconcile_identity_count deleted.identity_id
  return deleted
open_status env ad (available listing) = do
  synced ← sync_from_public_listing ad listing
  schedule_next_availability_check env synced env.now "checked_on_open"
open_status env ad (unclear reason) = schedule_next_availability_check env ad env.now reason

unfoldable pub refresh_managed_listing_on_open : TrackingEnv → BazosAd → M BazosAd
unfolding is_managed_availability_tracking_expired disable_availability_check mark_deleted_on_bazos
    sync_from_public_listing schedule_next_availability_check
refresh_managed_listing_on_open env ad =
    if not (check_of ad).enabled
    then return ad
    else (if ad.publish_status == PublishStatus.deleted
        then disable_availability_check ad "already_deleted" env.now
        else (if is_managed_availability_tracking_expired ad env.now
            then disable_availability_check ad "tracking_expired" env.now
            else open_status env ad (status_or_failed (env.fetch_bazos_public_status ad))))
