-- ===== src/Publisher/Queue.antt =====
-- shared/bazos/publisher/bazos-publisher-queue.service.ts: `enqueueDraft`, and what the operations
-- of the queue share. The environment has the policy's clock and clients, and the password that
-- `generateEditPassword` would return.
use bazos.Base.{
  ℕ, ◌+◌, ◌*◌, Option, none, some, List, [], ◌∷◌, Bool, true, false, not, ◌&&◌, ◌||◌, if◌then◌else◌,
  String, ◌==◌, nat_eq, string_eq, option_eq, ltb, any, select, find_first, truthy,
}
use bazos.Gate.{PolicyEvaluationResult}
use bazos.Store.{
  BazosAd, BazosIdentity, BazosPublishAttempt, PolicyCheck, AttemptStatus, PublishStatus,
  submitting, policy_blocked, published, publishing, deleted, attempt_status_eq, publish_status_eq,
  M, return, ◌>>=◌, ◌>>◌, throw_if, or_throw, not_found, bad_request, invalid_query, ok, bazos_ad,
  bazos_publish_attempt, update, create,
}
use bazos.Policy.{evaluate}
use bazos.Policy.Input.{PolicyEnv, PolicyCheckInput, Evidence}
use bazos.Identity.Record.{reserve_publish_slot}
use bazos.Publisher.Options.{with_submission_options}

pub record PublisherEnv : Type 0 where
  pub policy : PolicyEnv
  pub edit_password : String

pub record EnqueueBazosPublishDto : Type 0 where
  pub public_duplicate_check : Option Evidence
  pub content_policy : Option Evidence
  pub price_option : Option String

-- `identity: { userId }` in a `where`.
unfoldable pub is_identity_of_user : String → List BazosIdentity → ℕ → Bool
unfolding any
is_identity_of_user user_id identities id =
    any (λ i. i.id == id && i.user_id == some user_id) identities

abbrev pub is_ad_of_user : String → List BazosIdentity → Option ℕ → Bool
is_ad_of_user user_id identities none = false
is_ad_of_user user_id identities (some id) = is_identity_of_user user_id identities id

unfoldable pub find_ad_for_user : ℕ → String → M BazosAd
unfolding or_throw
find_ad_for_user ad_id user_id s =
    or_throw
      (find_first (λ a. a.id == ad_id && is_ad_of_user user_id s.identities a.identity_id) s.ads)
      not_found s

abbrev is_null : Option ℕ → Bool
is_null none = true
is_null (some n) = false

abbrev is_out : BazosAd → Bool
is_out ad =
    (ad.publish_status == published || ad.publish_status == publishing)
    || (truthy ad.bazos_ad_id && not (ad.publish_status == deleted))

unfoldable pub assert_publishable_draft : BazosAd → M (Unit {0})
unfolding truthy
assert_publishable_draft ad = do
  throw_if (is_null ad.identity_id) bad_request
  throw_if (not (truthy ad.category)) bad_request
  throw_if (is_out ad) bad_request
  throw_if (not ad.is_active) bad_request

-- The policy's queries refuse an identity or a category that is `null`.
abbrev pub policy_input : BazosAd → Option Evidence → Option Evidence → M PolicyCheckInput
policy_input ad duplicate content = do
  identity_id ← or_throw ad.identity_id invalid_query
  category ← or_throw ad.category invalid_query
  return (record {
    identity_id = identity_id;
    bazos_category = category;
    product_id = ad.product_id;
    ad_id = some ad.id;
    public_duplicate_check = duplicate;
    content_policy = content;
  })

unfoldable pub consult : PolicyEnv → PolicyCheckInput → M PolicyEvaluationResult
consult env input s = (ok (evaluate env s input), s)

unfoldable pub evaluate_ad_policy :
    PolicyEnv → BazosAd → Option Evidence → Option Evidence → M PolicyEvaluationResult
evaluate_ad_policy env ad duplicate content = do
  input ← policy_input ad duplicate content
  consult env input

abbrev pub is_active_attempt : AttemptStatus → Bool
is_active_attempt status = status == AttemptStatus.queued || status == submitting

abbrev pub is_attempt_of : BazosAd → BazosPublishAttempt → Bool
is_attempt_of ad a =
    a.ad_id == some ad.id && (ad.identity_id == some a.identity_id && is_active_attempt a.status)

-- `orderBy: { createdAt: 'desc' }` and the first row.
newer_attempt : BazosPublishAttempt → Option BazosPublishAttempt → Option BazosPublishAttempt
newer_attempt a none = some a
newer_attempt a (some b) = if ltb a.created_at b.created_at then some b else some a

unfoldable pub newest_attempt : List BazosPublishAttempt → Option BazosPublishAttempt
unfolding newer_attempt
newest_attempt [] = none
newest_attempt (a ∷ rest) = newer_attempt a (newest_attempt rest)

unfoldable pub find_newest : (BazosPublishAttempt → Bool) → M (Option BazosPublishAttempt)
unfolding newest_attempt select
find_newest p s = (ok (newest_attempt (select p s.attempts)), s)

pub data Enqueued : Type 0 where
  already : BazosPublishAttempt → Enqueued
  blocked : BazosPublishAttempt → PolicyCheck → Enqueued
  queued : BazosPublishAttempt → PolicyCheck → Enqueued

abbrev pub seconds : Option ℕ → ℕ
seconds none = 0
seconds (some n) = n

abbrev pub due_time : PolicyEvaluationResult → ℕ
due_time result = result.evaluated_at + seconds result.selected_pacing_delay_seconds * 1000

abbrev pub blocked_attempt : ℕ → BazosAd → ℕ → PolicyCheck → ℕ → BazosPublishAttempt
blocked_attempt now ad identity_id check id = record {
  id = id;
  identity_id = identity_id;
  ad_id = some ad.id;
  product_id = ad.product_id;
  status = policy_blocked;
  policy_result = check;
  challenge_state = none;
  not_before = none;
  started_at = none;
  completed_at = some now;
  error = none;
  created_at = now;
}

abbrev pub queued_attempt : ℕ → BazosAd → ℕ → PolicyCheck → ℕ → ℕ → BazosPublishAttempt
queued_attempt now ad identity_id check not_before id =
    record (blocked_attempt now ad identity_id check id) {
      status = AttemptStatus.queued;
      not_before = some not_before;
      completed_at = none;
    }

-- A deleted ad loses its number on bazos.cz when it is queued again.
abbrev pub queue_ad : PublishStatus → BazosAd → BazosAd
queue_ad old a = record a {
  publish_status = PublishStatus.queued;
  bazos_ad_id = if old == deleted then none else a.bazos_ad_id;
}

unfoldable pub queue_attempt :
    PublisherEnv → BazosAd → ℕ → PolicyEvaluationResult → PolicyCheck → M Enqueued
unfolding reserve_publish_slot
queue_attempt env ad identity_id result check = do
  reserve_publish_slot env.policy.now identity_id (due_time result)
  attempt ←
      create bazos_publish_attempt
        (queued_attempt env.policy.now ad identity_id check (due_time result))
  _ ← update bazos_ad ad.id (queue_ad ad.publish_status)
  return (queued attempt check)

unfoldable pub block_attempt : PublisherEnv → BazosAd → ℕ → PolicyCheck → M Enqueued
block_attempt env ad identity_id check = do
  attempt ← create bazos_publish_attempt (blocked_attempt env.policy.now ad identity_id check)
  return (blocked attempt check)

unfoldable pub enqueue_new : PublisherEnv → BazosAd → EnqueueBazosPublishDto → M Enqueued
enqueue_new env ad dto = do
  input ← policy_input ad dto.public_duplicate_check dto.content_policy
  result ← consult env.policy input
  let check = with_submission_options result ad dto.price_option
  _ ← update bazos_ad ad.id λ a. record a { last_policy_check = some check }
  (if result.allowed
      then queue_attempt env ad input.identity_id result check
      else block_attempt env ad input.identity_id check)

abbrev pub enqueue_unless :
    PublisherEnv → BazosAd → EnqueueBazosPublishDto → Option BazosPublishAttempt → M Enqueued
enqueue_unless env ad dto (some attempt) = return (already attempt)
enqueue_unless env ad dto none = enqueue_new env ad dto

unfoldable pub enqueue_draft : PublisherEnv → ℕ → String → EnqueueBazosPublishDto → M Enqueued
enqueue_draft env ad_id user_id dto = do
  ad ← find_ad_for_user ad_id user_id
  assert_publishable_draft ad
  existing ← find_newest (is_attempt_of ad)
  enqueue_unless env ad dto existing
