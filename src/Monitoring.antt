-- ===== src/Monitoring.antt =====
-- shared/bazos/monitoring/bazos-monitoring.service.ts: `reconcileIdentityCounts` and
-- `expireStaleSubmissions`, which change state, and the test `identityNeedsReview`. `now` is the time
-- of the call.
pub mod Counts
pub mod Stale
mod Tests
use bazos.Base.{
  ℕ, zero, suc, ◌+◌, ◌-◌, ◌*◌, Option, none, some, List, [], ◌∷◌, map, length, Bool, true, false,
  not, ◌&&◌, ◌||◌, if◌then◌else◌, String, ◌==◌, nat_eq, string_eq, option_eq, ltb, any, select,
}
use bazos.Store.{
  Store, BazosAd, BazosIdentity, BazosPublishAttempt, PublishStatus, published, AttemptStatus,
  submitting, IdentityStatus, suspended, banned, clear, SessionState, attempt_status_eq,
  publish_status_eq, review_state_eq, session_state_eq, identity_status_eq, M, return, ◌>>=◌, ◌>>◌,
  throw_if, not_found, bazos_ad, bazos_identity, bazos_publish_attempt, find_many, count, update,
  ok,
}
use bazos.Store.Loops.{for_each}
use bazos.Publisher.Claim.{identity_ids_for_user, ad_of, limit_or}

abbrev pub default_stale_minutes : ℕ
default_stale_minutes = 30

-- `isActive: true, publishStatus: { in: ACTIVE_AD_STATUSES }`
abbrev pub is_tracked : ℕ → BazosAd → Bool
is_tracked identity_id a =
    a.identity_id == some identity_id
    && (a.is_active && (a.publish_status == published || a.publish_status == PublishStatus.active))

abbrev pub is_asked_for : String → Option ℕ → BazosIdentity → Bool
is_asked_for user_id none i = i.user_id == some user_id
is_asked_for user_id (some id) i = i.user_id == some user_id && i.id == id

pub record CountResult : Type 0 where
  pub identity_id : ℕ
  pub previous_active_ad_count : ℕ
  pub reconciled_active_ad_count : ℕ
  pub changed : Bool

abbrev pub set_count : ℕ → BazosIdentity → BazosIdentity
set_count n i = record i { active_ad_count = n }

unfoldable pub write_count : BazosIdentity → ℕ → M (Unit {0})
write_count i tracked =
    if i.active_ad_count == tracked
    then return tt
    else (do _ ← update bazos_identity i.id (set_count tracked); return tt)

unfoldable pub reconcile_one : BazosIdentity → M CountResult
unfolding write_count
reconcile_one i = do
  tracked ← count bazos_ad (is_tracked i.id)
  write_count i tracked
  return (record {
    identity_id = i.id;
    previous_active_ad_count = i.active_ad_count;
    reconciled_active_ad_count = tracked;
    changed = not (i.active_ad_count == tracked);
  })

abbrev pub is_absent : Option ℕ → List BazosIdentity → Bool
is_absent (some id) [] = true
is_absent o l = false

unfoldable pub reconcile_identity_counts : String → Option ℕ → M (List CountResult)
reconcile_identity_counts user_id identity_id = do
  identities ← find_many bazos_identity (is_asked_for user_id identity_id)
  throw_if (is_absent identity_id identities) not_found
  for_each reconcile_one identities

-- `startedAt: { lt: staleBefore }`, which no row without a start meets.
abbrev pub started_before : ℕ → Option ℕ → Bool
started_before t none = false
started_before t (some u) = ltb u t

unfoldable pub is_stale : ℕ → List ℕ → BazosPublishAttempt → Bool
unfolding any
is_stale before ids a =
    any (λ k. k == a.identity_id) ids
    && (a.status == submitting && started_before before a.started_at)

abbrev pub fail_stale : ℕ → BazosPublishAttempt → BazosPublishAttempt
fail_stale now a = record a {
  status = AttemptStatus.failed;
  completed_at = some now;
  error = some "Submission stale";
}

abbrev pub fail_ad_of : Option BazosAd → M (Unit {0})
fail_ad_of none = return tt
fail_ad_of (some ad) = do
  _ ← update bazos_ad ad.id λ d. record d { publish_status = PublishStatus.failed }
  return tt

unfoldable pub expire_one : ℕ → BazosPublishAttempt × Option BazosAd → M (Unit {0})
expire_one now (a, ad) = do _ ← update bazos_publish_attempt a.id (fail_stale now); fail_ad_of ad

-- `Number(maxAgeMinutes || DEFAULT_STALE_MINUTES)`, in milliseconds before the call.
abbrev pub stale_before : ℕ → Option ℕ → ℕ
stale_before now max_age_minutes = now - limit_or default_stale_minutes max_age_minutes * 60000

unfoldable pub stale_attempts : ℕ → String → Option ℕ → Store → List BazosPublishAttempt
unfolding select
stale_attempts now user_id max_age_minutes s =
    select
      (is_stale (stale_before now max_age_minutes) (identity_ids_for_user user_id s.identities))
      s.attempts

unfoldable pub find_stale : ℕ → String → Option ℕ → M (List (BazosPublishAttempt × Option BazosAd))
find_stale now user_id max_age_minutes s =
    (ok (map (λ a. (a, ad_of s a)) (stale_attempts now user_id max_age_minutes s)), s)

-- The number of attempts that were expired.
unfoldable pub expire_stale_submissions : ℕ → String → Option ℕ → M ℕ
expire_stale_submissions now user_id max_age_minutes = do
  attempts ← find_stale now user_id max_age_minutes
  _ ← for_each (expire_one now) attempts
  return (length attempts)

abbrev pub identity_needs_review : BazosIdentity → Bool
identity_needs_review i =
    not (i.review_state == clear)
    || ((i.session_state == SessionState.expired || i.session_state == SessionState.challenge)
        || (i.status == suspended || i.status == banned))
