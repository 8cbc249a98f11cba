-- ===== src/Ad/Tracking.antt =====
-- How published ads are followed on the public pages of Bazos: what is kept of the checks, and the
-- schedule of the next one.
use bazos.Base.{
  ℕ, ◌+◌, ◌*◌, Option, none, some, List, Bool, true, false, not, if◌then◌else◌, ltb, leb, nat_eq,
  string_eq, option_eq, String,
}
use bazos.Store.{
  BazosAd, AvailabilityCheck, PolicyCheck, check_object, PublishStatus, publish_status_eq, M,
  return, update, bazos_ad,
}

-- What a public page shows; a field is `none` where the page has no text, or no number, for it.
pub record Listing : Type 0 where
  pub title : Option String
  pub description : Option String
  pub price : Option ℕ
  pub category : Option String
  pub location : Option String

-- `available: true`, `false` and `null`.
pub data PublicStatus : Type 0 where
  available : Listing → PublicStatus
  gone : String → PublicStatus
  unclear : String → PublicStatus

-- `random n` is `Math.floor(Math.random() * n)`; `fetch_bazos_public_status` is `none` where it throws;
-- `by_updated_at` is the order in which the database lists ads.
pub record TrackingEnv : Type 0 where
  pub now : ℕ
  pub random : ℕ → ℕ
  pub fetch_bazos_public_status : BazosAd → Option PublicStatus
  pub by_updated_at : List BazosAd → List BazosAd

abbrev pub minute : ℕ
minute = 60000

-- `DEFAULT_BAZOS_LISTING_LIFETIME_DAYS`, in milliseconds.
abbrev pub listing_lifetime : ℕ
listing_lifetime = 30 * 24 * 60 * minute

-- The 14 days that `isAvailabilityCheckDue` counts instead.
abbrev pub due_lifetime : ℕ
due_lifetime = 14 * 24 * 60 * minute

abbrev pub no_check : AvailabilityCheck
no_check = record {
  enabled = false;
  next_check_at = none;
  last_checked_at = none;
  last_manage_opened_at = none;
  stopped_at = none;
  last_reason = none;
}

abbrev pub check_or_none : Option AvailabilityCheck → AvailabilityCheck
check_or_none none = no_check
check_or_none (some c) = c

abbrev pub check_of : BazosAd → AvailabilityCheck
check_of ad = check_or_none (check_object ad.last_policy_check).bazos_availability_check

-- The `Json` column with another `bazosAvailabilityCheck`, from the row as it was read.
abbrev pub with_check : AvailabilityCheck → BazosAd → Option PolicyCheck
with_check c ad =
    some (record (check_object ad.last_policy_check) { bazos_availability_check = some c })

-- 50 to 70 minutes later: an hour, and a jitter of `random(21) - 10` minutes.
abbrev pub next_availability_check_at : TrackingEnv → ℕ → ℕ
next_availability_check_at env from = from + (50 + env.random 21) * minute

abbrev pub or_published : TrackingEnv → Option ℕ → ℕ → ℕ
or_published env none from = next_availability_check_at env from
or_published env (some t) from = t + listing_lifetime

abbrev pub or_expiry : TrackingEnv → Option ℕ → Option ℕ → ℕ → ℕ
or_expiry env none last_published_at from = or_published env last_published_at from
or_expiry env (some t) last_published_at from =
    if ltb from t then t else or_published env last_published_at from

abbrev pub next_expiry_fallback_check_at : TrackingEnv → BazosAd → ℕ → ℕ
next_expiry_fallback_check_at env ad from = or_expiry env ad.expires_at ad.last_published_at from

-- Whether the ad has expired: by its own date, or a lifetime after it was published.
abbrev pub has_passed : ℕ → Option ℕ → Option ℕ → ℕ → Bool
has_passed lifetime (some t) last_published_at now = leb t now
has_passed lifetime none none now = false
has_passed lifetime none (some t) now = leb (t + lifetime) now

unfoldable pub is_managed_availability_tracking_expired : BazosAd → ℕ → Bool
is_managed_availability_tracking_expired ad now =
    has_passed listing_lifetime ad.expires_at ad.last_published_at now

abbrev pub is_reached : Option ℕ → ℕ → Bool
is_reached none now = true
is_reached (some t) now = leb t now

unfoldable pub is_availability_check_due : BazosAd → ℕ → Bool
is_availability_check_due ad now =
    if (check_of ad).enabled
    then is_reached (check_of ad).next_check_at now
    else has_passed due_lifetime ad.expires_at ad.last_published_at now

abbrev pub scheduled : TrackingEnv → BazosAd → ℕ → String → AvailabilityCheck
scheduled env ad from reason = record (check_of ad) {
  last_checked_at = some from;
  last_reason = some reason;
  next_check_at = some (
      if (check_of ad).enabled
      then next_availability_check_at env from
      else next_expiry_fallback_check_at env ad from);
}

unfoldable pub schedule_next_availability_check : TrackingEnv → BazosAd → ℕ → String → M BazosAd
schedule_next_availability_check env ad from reason =
    update bazos_ad ad.id
      λ row. record row { last_policy_check = with_check (scheduled env ad from reason) ad }

-- The ad as `ad` was read, and `row` is.
abbrev pub deleted_on_bazos : ℕ → String → BazosAd → BazosAd → BazosAd
deleted_on_bazos now reason ad row = record row {
  is_active = false;
  publish_status = PublishStatus.deleted;
  last_policy_check = some (record (check_object ad.last_policy_check) {
    deletion = some (record {
      verified_at = now;
      reason = reason;
      previous_publish_status = ad.publish_status;
    });
    bazos_availability_check = some (record (check_of ad) {
      enabled = false;
      last_checked_at = some now;
      last_reason = some reason;
    });
  });
}

unfoldable pub mark_deleted_on_bazos : ℕ → BazosAd → String → M BazosAd
mark_deleted_on_bazos now ad reason = update bazos_ad ad.id (deleted_on_bazos now reason ad)

unfoldable pub disable_availability_check : BazosAd → String → ℕ → M BazosAd
disable_availability_check ad reason at =
    if not (check_of ad).enabled
    then return ad
    else update bazos_ad ad.id λ row. record row {
      last_policy_check =
          with_check
            (record (check_of ad) {
              enabled = false;
              stopped_at = some at;
              last_checked_at = some at;
              last_reason = some reason;
            })
            ad;
    }
