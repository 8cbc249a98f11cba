-- ===== src/SellAction/Shown.antt =====
-- What the answers of the sell action show of a draft, and which step they ask for next. A described
-- identity, and the texts of a described draft, are the rows themselves.
use bazos.Base.{
  ℕ, Option, none, some, List, [], ◌∷◌, ◌++◌, Bool, true, false, not, ◌&&◌, ◌||◌, ◌==◌, nat_eq,
  if◌then◌else◌, String, truthy, codes, begins_with, trim, map, lower_code,
}
use mathlib.Core.List.{reverse}
use bazos.Gate.{
  PolicyGate, PolicyGateFailure, PolicyEvaluationResult, public_duplicate_check_missing,
  content_policy_not_validated, policy_gate_eq,
}
use bazos.Store.{
  BazosAd, BazosPublishAttempt, check_object, ReviewState, AttemptStatus, PublishStatus, published,
  publishing, policy_blocked, challenge_required, publish_status_eq, attempt_status_eq,
}
use bazos.Publisher.Queue.{Enqueued, already, blocked, queued}
use bazos.SellAction.Quality.{CatalogQuality}

pub record ListingSite : Type 0 where
  pub base_url : List ℕ
  pub encode : List ℕ → List ℕ

abbrev without_slash : List ℕ → List ℕ
without_slash [] = []
without_slash (c ∷ cs) = if c == b'/' then cs else c ∷ cs

abbrev number_codes : Option String → List ℕ
number_codes none = []
number_codes (some s) = codes s

abbrev is_address : List ℕ → Bool
is_address cs =
    begins_with (codes "http://") (map lower_code cs)
    || begins_with (codes "https://") (map lower_code cs)

-- `base_url` is the configured address, `encode` is `encodeURIComponent`.
unfoldable pub build_bazos_listing_url : ListingSite → Option String → Option (List ℕ)
unfolding trim begins_with lower_code
build_bazos_listing_url site number = url (trim (number_codes number))
  where
    url : List ℕ → Option (List ℕ)
    url [] = none
    url (c ∷ cs) =
        if is_address (c ∷ cs)
        then some (c ∷ cs)
        else some (
            reverse (without_slash (reverse site.base_url))
            ++ (b'/' ∷ (site.encode (c ∷ cs) ++ (b'/' ∷ []))))

unfoldable pub is_published_on_bazos : BazosAd → Bool
unfolding truthy
is_published_on_bazos ad = ad.is_active && (truthy ad.bazos_ad_id && ad.publish_status == published)

abbrev is_active_published_status : PublishStatus → Bool
is_active_published_status status =
    status == published || status == publishing || status == PublishStatus.queued

unfoldable pub is_active_on_bazos : BazosAd → Bool
is_active_on_bazos ad = ad.is_active && is_active_published_status ad.publish_status

pub record DescribedDraft : Type 0 where
  pub ad : BazosAd
  pub published_on_bazos : Bool
  pub active_on_bazos : Bool
  pub listing_url : Option (List ℕ)

unfoldable pub describe_draft : ListingSite → BazosAd → DescribedDraft
unfolding is_published_on_bazos is_active_on_bazos build_bazos_listing_url
describe_draft site ad = record {
  ad = ad;
  published_on_bazos = is_published_on_bazos ad;
  active_on_bazos = is_active_on_bazos ad;
  listing_url = build_bazos_listing_url site ad.bazos_ad_id;
}

abbrev is_manual_gate : PolicyGate → Bool
is_manual_gate g = g == public_duplicate_check_missing || g == content_policy_not_validated

every_manual : List PolicyGateFailure → Bool
every_manual [] = true
every_manual (f ∷ fs) = is_manual_gate f.gate && every_manual fs

abbrev some_and_manual : List PolicyGateFailure → Bool
some_and_manual [] = false
some_and_manual (f ∷ fs) = every_manual (f ∷ fs)

abbrev policy_can_queue : Option PolicyEvaluationResult → Bool
policy_can_queue none = false
policy_can_queue (some r) = r.allowed || some_and_manual r.failures

unfoldable pub can_queue_after_confirmation : Option PolicyEvaluationResult → CatalogQuality → Bool
unfolding every_manual
can_queue_after_confirmation policy_status quality =
    quality.allowed && policy_can_queue policy_status

pub data Reason : Type 0 where
  challenge : ReviewState → Reason
  attempt : AttemptStatus → Reason
  gate : PolicyGate → Reason
  catalog_product_quality : Reason

pub record HumanAction : Type 0 where
  pub required : Bool
  pub reason : Option Reason
  pub policy_failures : List PolicyGateFailure
  pub error : Option String

abbrev first_state : Option ReviewState → Option ReviewState → Option ReviewState
first_state none b = b
first_state (some a) b = some a

abbrev state_of : Option BazosPublishAttempt → Option ReviewState
state_of none = none
state_of (some a) = a.challenge_state

abbrev failures_or : Option PolicyEvaluationResult → List PolicyGateFailure → List PolicyGateFailure
failures_or none others = others
failures_or (some r) others = r.failures

abbrev result_of : Option BazosPublishAttempt → Option PolicyEvaluationResult
result_of none = none
result_of (some a) = a.policy_result.result

abbrev needs_human : Option BazosPublishAttempt → Bool
needs_human none = false
needs_human (some a) =
    a.status == policy_blocked || a.status == challenge_required || a.status == AttemptStatus.failed

abbrev error_of : Option BazosPublishAttempt → Option String
error_of none = none
error_of (some a) = a.error

abbrev is_state : Option ReviewState → Bool
is_state none = false
is_state (some r) = true

abbrev reason_of :
    Option ReviewState → Option BazosPublishAttempt → List PolicyGateFailure → Option Reason
reason_of (some r) a failures = some (challenge r)
reason_of none (some a) failures = some (attempt a.status)
reason_of none none [] = none
reason_of none none (f ∷ fs) = some (gate f.gate)

unfoldable pub requires_human_action : BazosAd → Option BazosPublishAttempt → HumanAction
requires_human_action ad a =
    let state = first_state ad.challenge_state (state_of a) in
    let failures =
      failures_or (result_of a) (failures_or (check_object ad.last_policy_check).result []) in
    record {
      required =
          is_state state
          || ad.publish_status == PublishStatus.challenge
          || ad.publish_status == PublishStatus.blocked_policy
          || needs_human a;
      reason = reason_of state a failures;
      policy_failures = failures;
      error = error_of a;
    }

pub data NextAction : Type 0 where
  create_bazos_draft : NextAction
  resolve_catalog_quality_blockers : NextAction
  poll_publish_status : NextAction
  resolve_policy_failures : NextAction
  confirm_publish : NextAction

-- An attempt that was there already counts as queued.
abbrev pub counts_as_queued : Enqueued → Bool
counts_as_queued (already a) = true
counts_as_queued (blocked a check) = false
counts_as_queued (queued a check) = true

abbrev is_allowed : Option PolicyEvaluationResult → Bool
is_allowed none = false
is_allowed (some r) = r.allowed

abbrev action_for_policy : Bool → NextAction
action_for_policy true = confirm_publish
action_for_policy false = resolve_policy_failures

abbrev action_for_queue : Option Enqueued → Bool → NextAction
action_for_queue none allowed = action_for_policy allowed
action_for_queue (some e) allowed =
    if counts_as_queued e then poll_publish_status else resolve_policy_failures

unfoldable pub next_action :
    Option PolicyEvaluationResult → Option Enqueued → CatalogQuality → NextAction
next_action policy_status queue quality =
    if not quality.allowed
    then resolve_catalog_quality_blockers
    else action_for_queue queue (is_allowed policy_status)
