-- ===== src/Publisher/Claim.antt =====
-- shared/bazos/publisher/bazos-publisher-queue.service.ts: `listQueue`, `claimNext` and
-- `submissionForAttempt`.
use bazos.Base.{
  ℕ, zero, suc, Option, none, some, List, [], ◌∷◌, map, Bool, true, false, not, ◌&&◌, ◌||◌,
  if◌then◌else◌, String, ◌==◌, nat_eq, string_eq, option_eq, ltb, leb, any, select, find_first,
  take, sort_by, truthy, or_else,
}
use bazos.Store.{
  Store, BazosAd, BazosIdentity, BazosPublishAttempt, PolicyCheck, AttemptStatus, submitting,
  policy_blocked, publishing, blocked_policy, attempt_status_eq, M, return, ◌>>=◌, ◌>>◌, throw_if,
  or_throw, not_found, bad_request, record_missing, ok, bazos_ad, bazos_identity,
  bazos_publish_attempt, find_unique, find_where, update, by_key,
}
use bazos.Policy.Input.{Evidence}
use bazos.Publisher.Options.{
  SubmissionPacket, submission_options, with_submission_options, build_submission_packet,
}
use bazos.Publisher.Queue.{PublisherEnv, is_identity_of_user, evaluate_ad_policy, is_active_attempt}

pub record ClaimBazosPublishDto : Type 0 where
  pub public_duplicate_check : Option Evidence
  pub content_policy : Option Evidence
  pub price_option : Option String
  pub limit : Option ℕ

pub record ListBazosPublishQueueDto : Type 0 where
  pub status : Option AttemptStatus
  pub identity_id : Option ℕ
  pub ad_id : Option ℕ
  pub limit : Option ℕ

-- `Number(limit || n)`
abbrev pub limit_or : ℕ → Option ℕ → ℕ
limit_or n none = n
limit_or n (some zero) = n
limit_or n (some (suc k)) = suc k

unfoldable pub identity_ids_for_user : String → List BazosIdentity → List ℕ
unfolding select
identity_ids_for_user user_id identities =
    map (λ i. i.id) (select (λ i. i.user_id == some user_id) identities)

-- `orderBy: [{ notBefore: 'asc' }, { createdAt: 'asc' }]`; PostgreSQL sorts `null` last.
abbrev pub precedes : BazosPublishAttempt → BazosPublishAttempt → Bool
precedes a b = earlier a.not_before b.not_before
  where
    earlier : Option ℕ → Option ℕ → Bool
    earlier none none = ltb a.created_at b.created_at
    earlier none (some t) = false
    earlier (some t) none = true
    earlier (some t) (some u) = ltb t u || (t == u && ltb a.created_at b.created_at)

abbrev matches {ℓ} : {A : Type ℓ} → (A → Bool) → Option A → Bool
matches p none = true
matches p (some x) = p x

abbrev wanted_ids : Option ℕ → List ℕ → List ℕ
wanted_ids none ids = ids
wanted_ids (some id) ids = id ∷ []

unfoldable pub list_queue : String → ListBazosPublishQueueDto → Store → List BazosPublishAttempt
unfolding any select sort_by
list_queue user_id query s =
    let ids = wanted_ids query.identity_id (identity_ids_for_user user_id s.identities) in
    take (limit_or 50 query.limit) (
      sort_by precedes (
        select
          (λ a.
            any (λ k. k == a.identity_id) ids
            && (matches (λ st. a.status == st) query.status
                && matches (λ k. a.ad_id == some k) query.ad_id))
          s.attempts))

abbrev pub is_due : ℕ → Option ℕ → Bool
is_due now none = true
is_due now (some t) = leb t now

unfoldable pub is_claimable : ℕ → String → List BazosIdentity → BazosPublishAttempt → Bool
unfolding any
is_claimable now user_id identities a =
    any (λ k. k == a.identity_id) (identity_ids_for_user user_id identities)
    && (a.status == AttemptStatus.queued && is_due now a.not_before)

-- `include: { ad: true }`
abbrev pub linked_ad : Option ℕ → List BazosAd → Option BazosAd
linked_ad none ads = none
linked_ad (some k) ads = by_key (λ ad. ad.id) k ads

abbrev pub ad_of : Store → BazosPublishAttempt → Option BazosAd
ad_of s a = linked_ad a.ad_id s.ads

unfoldable pub due_attempts : ℕ → String → Option ℕ → Store → List BazosPublishAttempt
unfolding select sort_by
due_attempts now user_id limit s =
    take (limit_or 5 limit)
      (sort_by precedes (select (is_claimable now user_id s.identities) s.attempts))

unfoldable pub find_due : ℕ → String → Option ℕ → M (List (BazosPublishAttempt × Option BazosAd))
find_due now user_id limit s =
    (ok (map (λ a. (a, ad_of s a)) (due_attempts now user_id limit s)), s)

pub data Claimed : Type 0 where
  claimed : BazosPublishAttempt → SubmissionPacket → Claimed
  not_allowed : PolicyCheck → Claimed
  no_due_attempts : Claimed

unfoldable pub ensure_ad_edit_password : PublisherEnv → BazosAd → M BazosAd
unfolding truthy
ensure_ad_edit_password env ad =
    if truthy ad.bazos_edit_password
    then return ad
    else update bazos_ad ad.id λ a. record a { bazos_edit_password = some env.edit_password }

abbrev pub find_attempt_identity : BazosPublishAttempt → M BazosIdentity
find_attempt_identity a = do
  found ← find_unique bazos_identity a.identity_id
  or_throw found record_missing

abbrev pub start : ℕ → PolicyCheck → BazosPublishAttempt → BazosPublishAttempt
start now check a = record a { status = submitting; started_at = some now; policy_result = check }

-- The ad that comes with the updated attempt is `ad`: nothing has changed it since it was read.
unfoldable pub claim_attempt :
    PublisherEnv → BazosPublishAttempt → BazosAd → PolicyCheck → M Claimed
claim_attempt env a ad check = do
  attempt ← update bazos_publish_attempt a.id (start env.policy.now check)
  identity ← find_attempt_identity attempt
  _ ←
      update bazos_ad ad.id
        λ d. record d { publish_status = publishing; last_policy_check = some check }
  ad_with_password ← ensure_ad_edit_password env ad
  return (claimed attempt (build_submission_packet attempt ad_with_password identity))

abbrev pub reject : ℕ → PolicyCheck → BazosPublishAttempt → BazosPublishAttempt
reject now check a = record a {
  status = policy_blocked;
  policy_result = check;
  completed_at = some now;
}

unfoldable pub reject_attempt :
    PublisherEnv → BazosPublishAttempt → BazosAd → PolicyCheck → M Claimed
reject_attempt env a ad check = do
  _ ← update bazos_publish_attempt a.id (reject env.policy.now check)
  _ ←
      update bazos_ad ad.id
        λ d. record d { publish_status = blocked_policy; last_policy_check = some check }
  return (not_allowed check)

unfoldable pub recheck :
    PublisherEnv → ClaimBazosPublishDto → BazosPublishAttempt → BazosAd → M Claimed
unfolding or_else
recheck env dto a ad = do
  result ← evaluate_ad_policy env.policy ad dto.public_duplicate_check dto.content_policy
  let check =
      with_submission_options result ad
        (or_else dto.price_option (submission_options a.policy_result ad).price_option)
  if result.allowed then claim_attempt env a ad check else reject_attempt env a ad check

-- Another attempt of the same identity that is being submitted.
abbrev pub is_in_flight_beside : BazosPublishAttempt → BazosPublishAttempt → Bool
is_in_flight_beside a b =
    b.identity_id == a.identity_id && (b.status == submitting && not (b.id == a.id))

abbrev pub claim_unless_busy {ℓ} : {A : Type ℓ} → Option A → M Claimed → M Claimed → M Claimed
claim_unless_busy none skip claim = claim
claim_unless_busy (some b) skip claim = skip

unfoldable pub consider :
    PublisherEnv → ClaimBazosPublishDto → M Claimed → BazosPublishAttempt → BazosAd → M Claimed
consider env dto skip a ad = do
  busy ← find_where bazos_publish_attempt (is_in_flight_beside a)
  claim_unless_busy busy skip (recheck env dto a ad)

unfoldable pub claim_first :
    PublisherEnv → ClaimBazosPublishDto → List (BazosPublishAttempt × Option BazosAd) → M Claimed
claim_first env dto [] = return no_due_attempts
claim_first env dto ((a, none) ∷ rest) = claim_first env dto rest
claim_first env dto ((a, some ad) ∷ rest) =
    let skip = claim_first env dto rest in if ad.is_active then consider env dto skip a ad else skip

unfoldable pub claim_next : PublisherEnv → String → ClaimBazosPublishDto → M Claimed
claim_next env user_id dto = do
  attempts ← find_due env.policy.now user_id dto.limit
  claim_first env dto attempts

unfoldable pub find_attempt_for_user : ℕ → String → M BazosPublishAttempt
unfolding or_throw
find_attempt_for_user attempt_id user_id s =
    or_throw
      (find_first
        (λ a. a.id == attempt_id && is_identity_of_user user_id s.identities a.identity_id)
        s.attempts)
      not_found s

unfoldable pub find_attempt_ad : BazosPublishAttempt → M (Option BazosAd)
find_attempt_ad a s = (ok (ad_of s a), s)

unfoldable pub submission_for_attempt :
    PublisherEnv → ℕ → String → M (BazosPublishAttempt × SubmissionPacket)
submission_for_attempt env attempt_id user_id = do
  attempt ← find_attempt_for_user attempt_id user_id
  throw_if (not (is_active_attempt attempt.status)) bad_request
  found ← find_attempt_ad attempt
  ad ← or_throw found bad_request
  throw_if (not ad.is_active) bad_request
  identity ← find_attempt_identity attempt
  ad_with_password ← ensure_ad_edit_password env ad
  return (attempt, build_submission_packet attempt ad_with_password identity)
