-- ===== src/Ad.antt =====
-- shared/bazos/ad/bazos-ad.service.ts: the check of a draft, and the challenges that are recorded
-- on an ad.
pub mod Product
pub mod Ensure
pub mod Drafts
pub mod Uploads
pub mod Created
pub mod Editing
pub mod Edited
pub mod Laws
pub mod Tracking
pub mod Refresh
pub mod Schedule
pub mod Deleted
mod TrackingTests
mod EditingTests
mod Tests
use bazos.Base.{ℕ, Option, none, some, Bool, not, String, ◌==◌, nat_eq, ◌&&◌, find_first, truthy}
use bazos.Gate.{PolicyEvaluationResult}
use bazos.Store.{
  Store, BazosAd, BazosIdentity, PolicyCheck, empty_check, SubmissionOptions, PublishStatus,
  SessionState, ReviewState, M, return, ◌>>=◌, ◌>>◌, throw_if, or_throw, not_found, bad_request,
  bazos_ad, bazos_identity, update,
}
use bazos.Policy.Input.{PolicyEnv, PolicyCheckInput}
use bazos.Identity.Record.{assert_challenge_state}
use bazos.Publisher.Options.{no_options}
use bazos.Publisher.Queue.{is_ad_of_user, consult}

unfoldable pub find_by_id_for_user : ℕ → String → M BazosAd
unfolding or_throw
find_by_id_for_user id user_id s =
    or_throw
      (find_first (λ a. a.id == id && is_ad_of_user user_id s.identities a.identity_id) s.ads)
      not_found s

-- `lastPolicyCheck?.draftOptions || {}`
abbrev pub kept_options : Option PolicyCheck → SubmissionOptions
kept_options none = no_options
kept_options (some c) = or_no_options c.draft_options
  where
    or_no_options : Option SubmissionOptions → SubmissionOptions
    or_no_options none = no_options
    or_no_options (some o) = o

-- The input has no ad and no evidence, as in the code.
abbrev pub draft_input : BazosAd → ℕ → String → PolicyCheckInput
draft_input ad identity_id category = record {
  identity_id = identity_id;
  bazos_category = category;
  product_id = ad.product_id;
  ad_id = none;
  public_duplicate_check = none;
  content_policy = none;
}

abbrev pub draft_check : BazosAd → PolicyEvaluationResult → PolicyCheck
draft_check ad result = record empty_check {
  result = some result;
  draft_options = some (kept_options ad.last_policy_check);
}

unfoldable pub evaluate_publish_policy : PolicyEnv → ℕ → String → M PolicyEvaluationResult
unfolding truthy
evaluate_publish_policy env id user_id = do
  ad ← find_by_id_for_user id user_id
  identity_id ← or_throw ad.identity_id bad_request
  throw_if (not (truthy ad.category)) bad_request
  category ← or_throw ad.category bad_request
  result ← consult env (draft_input ad identity_id category)
  _ ← update bazos_ad id λ a. record a { last_policy_check = some (draft_check ad result) }
  return result

abbrev pub stopped : ReviewState → BazosIdentity → BazosIdentity
stopped r i = record i { review_state = r; session_state = SessionState.challenge }

abbrev pub stop_identity : ReviewState → Option ℕ → M (Unit {0})
stop_identity r none = return tt
stop_identity r (some identity_id) = do _ ← update bazos_identity identity_id (stopped r); return tt

unfoldable pub record_challenge : ℕ → String → Option ReviewState → M (Unit {0})
record_challenge id user_id challenge_state = do
  r ← assert_challenge_state challenge_state
  ad ← find_by_id_for_user id user_id
  _ ←
      update bazos_ad id
        λ a. record a { challenge_state = some r; publish_status = PublishStatus.challenge }
  stop_identity r ad.identity_id
