-- ===== src/Publisher/Record.antt =====
-- shared/bazos/publisher/bazos-publisher-queue.service.ts: `recordResult`.
use bazos.Base.{
  ℕ, Option, none, some, Bool, true, false, not, ◌&&◌, ◌||◌, if◌then◌else◌, String, ◌==◌, truthy,
}
use bazos.Store.{
  BazosAd, BazosPublishAttempt, AttemptStatus, PublishStatus, submitted, challenge_required,
  policy_blocked, published, ReviewState, clear, attempt_status_eq, review_state_eq, M, return,
  ◌>>=◌, ◌>>◌, throw, throw_if, bad_request, bazos_ad, bazos_identity, bazos_publish_attempt,
  update,
}
use bazos.Identity.Record.{keep, session_after, increment_active_ad_count, record_category_publish}
use bazos.Publisher.Claim.{find_attempt_for_user, find_attempt_ad}

-- A challenge state that is left out, that names no state, or that names one.
pub data ChallengeInput : Type 0 where
  not_given : ChallengeInput
  unknown : ChallengeInput
  given : ReviewState → ChallengeInput

pub record RecordBazosPublishResultDto : Type 0 where
  pub success : Bool
  pub bazos_ad_id : Option String
  pub expires_at : Option ℕ
  pub challenge_state : ChallengeInput
  pub error : Option String

abbrev pub is_terminal : AttemptStatus → Bool
is_terminal status =
    (status == submitted || status == challenge_required)
    || (status == AttemptStatus.failed || status == policy_blocked)

abbrev pub publish_category : ℕ → ℕ → Option String → M (Unit {0})
publish_category now identity_id none = return tt
publish_category now identity_id (some category) =
    if truthy (some category) then record_category_publish now identity_id category else return tt

abbrev pub publish_ad :
    ℕ → BazosPublishAttempt → RecordBazosPublishResultDto → Option BazosAd → M (Unit {0})
publish_ad now attempt dto none = return tt
publish_ad now attempt dto (some ad) = do
  _ ← update bazos_ad ad.id λ a. record a {
    bazos_ad_id = dto.bazos_ad_id;
    expires_at = dto.expires_at;
    publish_status = published;
    challenge_state = none;
    last_published_at = some now;
  }
  increment_active_ad_count attempt.identity_id
  publish_category now attempt.identity_id ad.category

unfoldable pub record_successful_result :
    ℕ → BazosPublishAttempt → Option BazosAd → RecordBazosPublishResultDto → M BazosPublishAttempt
unfolding increment_active_ad_count record_category_publish truthy
record_successful_result now attempt ad dto = do
  updated ←
      update bazos_publish_attempt attempt.id
        λ a. record a { status = submitted; completed_at = some now; error = none }
  publish_ad now attempt dto ad
  return updated

abbrev pub assert_challenge_given : ChallengeInput → M ReviewState
assert_challenge_given not_given = throw bad_request
assert_challenge_given unknown = throw bad_request
assert_challenge_given (given r) = if r == clear then throw bad_request else return r

abbrev pub challenge_ad : ReviewState → Option BazosAd → M (Unit {0})
challenge_ad r none = return tt
challenge_ad r (some ad) = do
  _ ←
      update bazos_ad ad.id
        λ a. record a { publish_status = PublishStatus.challenge; challenge_state = some r }
  return tt

unfoldable pub record_challenge_result :
    ℕ → BazosPublishAttempt → Option BazosAd → RecordBazosPublishResultDto → M BazosPublishAttempt
record_challenge_result now attempt ad dto = do
  r ← assert_challenge_given dto.challenge_state
  updated ← update bazos_publish_attempt attempt.id λ a. record a {
    status = challenge_required;
    challenge_state = some r;
    completed_at = some now;
    error = keep dto.error a.error;
  }
  challenge_ad r ad
  _ ←
      update bazos_identity attempt.identity_id
        λ i. record i { review_state = r; session_state = session_after r }
  return updated

abbrev pub fail_ad : Option BazosAd → M (Unit {0})
fail_ad none = return tt
fail_ad (some ad) = do
  _ ← update bazos_ad ad.id λ a. record a { publish_status = PublishStatus.failed }
  return tt

unfoldable pub record_failed_result :
    ℕ → BazosPublishAttempt → Option BazosAd → Option String → M BazosPublishAttempt
record_failed_result now attempt ad error = do
  updated ← update bazos_publish_attempt attempt.id λ a. record a {
    status = AttemptStatus.failed;
    completed_at = some now;
    error = keep error a.error;
  }
  fail_ad ad
  return updated

abbrev pub is_challenge_given : ChallengeInput → Bool
is_challenge_given not_given = false
is_challenge_given unknown = true
is_challenge_given (given r) = true

abbrev pub record_by_kind :
    ℕ → BazosPublishAttempt → Option BazosAd → RecordBazosPublishResultDto → M BazosPublishAttempt
record_by_kind now attempt ad dto =
    if dto.success
    then record_successful_result now attempt ad dto
    else (if is_challenge_given dto.challenge_state
        then record_challenge_result now attempt ad dto
        else record_failed_result now attempt ad dto.error)

unfoldable pub record_result : ℕ → ℕ → String → RecordBazosPublishResultDto → M BazosPublishAttempt
unfolding truthy
record_result now attempt_id user_id dto = do
  attempt ← find_attempt_for_user attempt_id user_id
  ad ← find_attempt_ad attempt
  throw_if (is_terminal attempt.status) bad_request
  throw_if (dto.success && not (truthy dto.bazos_ad_id)) bad_request
  record_by_kind now attempt ad dto
