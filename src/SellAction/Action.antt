-- ===== src/SellAction/Action.antt =====
-- `prepare` and `confirm`.
use bazos.Base.{
  ℕ, Option, none, some, List, [], Bool, true, false, not, ◌&&◌, ◌==◌, nat_eq, string_eq, option_eq,
  String, if◌then◌else◌, find_first, truthy,
}
use bazos.Gate.{PolicyEvaluationResult}
use bazos.Store.{
  Store, BazosAd, BazosIdentity, BazosCategory, BazosPublishAttempt, M, return, ◌>>=◌, ◌>>◌,
  throw_if, or_throw, not_found, bad_request, find_where, bazos_identity, ok,
}
use bazos.Publisher.Queue.{
  EnqueueBazosPublishDto, Enqueued, already, blocked, queued, enqueue_draft, is_ad_of_user,
}
use bazos.Ad.{evaluate_publish_policy}
use bazos.Ad.Drafts.{is_own_identity}
use bazos.SellAction.Quality.{CatalogQuality, evaluate_catalog_quality}
use bazos.SellAction.Draft.{SellEnv, PrepareCatalogSellActionDto, find_or_create_draft}
use bazos.SellAction.Shown.{
  HumanAction, catalog_product_quality, NextAction, resolve_catalog_quality_blockers,
  can_queue_after_confirmation, requires_human_action, next_action,
}

-- An answer; a draft and an identity are shown as rows. `policy_status` is `none` for `null`, and in
-- the answer that Catalog's quality blocks, where the failures are the blocking issues.
pub record ActionResponse : Type 0 where
  pub product_id : ℕ
  pub draft : Option BazosAd
  pub identity : Option BazosIdentity
  pub category_mapped : Bool
  pub policy_status : Option PolicyEvaluationResult
  pub catalog_quality : CatalogQuality
  pub requires_confirmation : Bool
  pub can_queue : Bool
  pub queue : Option Enqueued
  pub human_action : HumanAction
  pub next : NextAction

unfoldable pub has_category_mapping : Option String → Store → Bool
unfolding find_first truthy
has_category_mapping none s = false
has_category_mapping (some category) s =
    truthy (some category)
    && is_found (find_first (λ c. c.bazos_category == category && c.is_active) s.categories)
  where
    is_found : Option BazosCategory → Bool
    is_found none = false
    is_found (some c) = true

unfoldable pub find_category_mapping : Option String → M Bool
unfolding has_category_mapping
find_category_mapping category s = (ok (has_category_mapping category s), s)

unfoldable pub build_catalog_quality_blocked_response :
    ℕ → Option BazosAd → Option BazosIdentity → Bool → CatalogQuality → ActionResponse
build_catalog_quality_blocked_response product_id draft identity mapped quality = record {
  product_id = product_id;
  draft = draft;
  identity = identity;
  category_mapped = mapped;
  policy_status = none;
  catalog_quality = quality;
  requires_confirmation = false;
  can_queue = false;
  queue = none;
  human_action = record {
    required = true;
    reason = some catalog_product_quality;
    policy_failures = [];
    error = none;
  };
  next = resolve_catalog_quality_blockers;
}

abbrev pub attempt_of_queue : Option Enqueued → Option BazosPublishAttempt
attempt_of_queue none = none
attempt_of_queue (some (already a)) = some a
attempt_of_queue (some (blocked a check)) = some a
attempt_of_queue (some (queued a check)) = some a

abbrev is_unqueued : Option Enqueued → Bool
is_unqueued none = true
is_unqueued (some e) = false

unfoldable pub build_action_response :
    ℕ
    → BazosAd
    → Option BazosIdentity
    → Bool
    → Option PolicyEvaluationResult
    → Option Enqueued
    → CatalogQuality
    → ActionResponse
unfolding can_queue_after_confirmation requires_human_action next_action
build_action_response product_id draft identity mapped policy_status queue quality = record {
  product_id = product_id;
  draft = some draft;
  identity = identity;
  category_mapped = mapped;
  policy_status = policy_status;
  catalog_quality = quality;
  requires_confirmation = is_unqueued queue;
  can_queue = can_queue_after_confirmation policy_status quality;
  queue = queue;
  human_action = requires_human_action draft (attempt_of_queue queue);
  next = next_action policy_status queue quality;
}

unfoldable pub find_identity_for_user : ℕ → String → M BazosIdentity
find_identity_for_user identity_id user_id = do
  found ← find_where bazos_identity (is_own_identity identity_id user_id)
  or_throw found not_found

abbrev pub prepare_allowed :
    SellEnv
    → String
    → ℕ
    → PrepareCatalogSellActionDto
    → BazosIdentity
    → Bool
    → CatalogQuality
    → M ActionResponse
prepare_allowed env user_id product_id dto identity mapped quality = do
  draft ← find_or_create_draft env user_id product_id dto
  policy_status ← evaluate_publish_policy env.publisher.policy draft.id user_id
  return (
      build_action_response product_id draft (some identity) mapped (some policy_status) none
        quality)

unfoldable pub prepare : SellEnv → String → ℕ → PrepareCatalogSellActionDto → M ActionResponse
unfolding find_identity_for_user find_category_mapping evaluate_catalog_quality
    build_catalog_quality_blocked_response find_or_create_draft evaluate_publish_policy
    build_action_response
prepare env user_id product_id dto = do
  identity ← find_identity_for_user dto.identity_id user_id
  mapped ← find_category_mapping (some dto.category)
  let quality = evaluate_catalog_quality (env.get_product_readiness product_id)
  (if not quality.allowed
      then return
          (build_catalog_quality_blocked_response product_id none (some identity) mapped quality)
      else prepare_allowed env user_id product_id dto identity mapped quality)

pub record ConfirmCatalogSellActionDto : Type 0 where
  pub ad_id : ℕ
  pub confirmed : Bool
  pub enqueue : EnqueueBazosPublishDto

unfoldable pub is_draft_for_product : ℕ → ℕ → String → List BazosIdentity → BazosAd → Bool
unfolding is_ad_of_user
is_draft_for_product ad_id product_id user_id identities ad =
    ad.id == ad_id
    && (ad.product_id == some product_id && is_ad_of_user user_id identities ad.identity_id)

unfoldable pub find_draft_for_product : ℕ → ℕ → String → M BazosAd
unfolding is_draft_for_product find_first
find_draft_for_product ad_id product_id user_id s =
    or_throw (find_first (is_draft_for_product ad_id product_id user_id s.identities) s.ads)
      not_found s

-- `include: { identity: true }`
abbrev pub identity_of : BazosAd → Store → Option BazosIdentity
identity_of ad s = find_first (λ i. some i.id == ad.identity_id) s.identities

unfoldable pub include_identity : BazosAd → M (Option BazosIdentity)
include_identity ad s = (ok (identity_of ad s), s)

-- `queueResult.decision || queueResult.attempt?.policyResult`
abbrev decision_of : Enqueued → Option PolicyEvaluationResult
decision_of (already a) = a.policy_result.result
decision_of (blocked a check) = check.result
decision_of (queued a check) = check.result

abbrev pub confirm_allowed :
    SellEnv
    → String
    → ℕ
    → ConfirmCatalogSellActionDto
    → BazosAd
    → Option BazosIdentity
    → Bool
    → CatalogQuality
    → M ActionResponse
confirm_allowed env user_id product_id dto draft identity mapped quality = do
  queue ← enqueue_draft env.publisher draft.id user_id dto.enqueue
  refreshed ← find_draft_for_product draft.id product_id user_id
  return (
      build_action_response product_id refreshed identity mapped (decision_of queue) (some queue)
        quality)

unfoldable pub confirm : SellEnv → String → ℕ → ConfirmCatalogSellActionDto → M ActionResponse
unfolding find_draft_for_product include_identity find_category_mapping evaluate_catalog_quality
    build_catalog_quality_blocked_response enqueue_draft build_action_response
confirm env user_id product_id dto = do
  throw_if (not dto.confirmed) bad_request
  draft ← find_draft_for_product dto.ad_id product_id user_id
  identity ← include_identity draft
  mapped ← find_category_mapping draft.category
  let quality = evaluate_catalog_quality (env.get_product_readiness product_id)
  (if not quality.allowed
      then return
          (build_catalog_quality_blocked_response product_id (some draft) identity mapped quality)
      else confirm_allowed env user_id product_id dto draft identity mapped quality)
