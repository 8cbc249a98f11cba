-- ===== src/SellAction/Status.antt =====
-- `status`: where the publication of a product stands.
use bazos.Base.{
  ℕ, Option, none, some, List, Bool, true, ◌&&◌, ◌==◌, nat_eq, option_eq, String, select,
}
use bazos.Store.{
  BazosAd, BazosIdentity, BazosPublishAttempt, PublishStatus, publish_status_eq, M, return, ◌>>=◌,
  ok,
}
use bazos.Publisher.Queue.{find_newest, is_ad_of_user}
use bazos.SellAction.Draft.{SellEnv, first}
use bazos.SellAction.Shown.{
  ListingSite, DescribedDraft, describe_draft, is_published_on_bazos, build_bazos_listing_url,
  HumanAction, requires_human_action,
}
use bazos.SellAction.Action.{find_category_mapping, include_identity}

pub record CatalogSellActionStatusQueryDto : Type 0 where
  pub ad_id : Option ℕ
  pub identity_id : Option ℕ

-- The answer for a draft that is there; `none` in its place is the answer without a draft, whose
-- next action is `create_bazos_draft`.
pub record StatusResponse : Type 0 where
  pub draft : DescribedDraft
  pub identity : Option BazosIdentity
  pub category_mapped : Bool
  pub latest_attempt : Option BazosPublishAttempt
  pub published_on_bazos : Bool
  pub listing_url : Option (List ℕ)
  pub requires_confirmation : Bool
  pub human_action : HumanAction

abbrev matches_id : Option ℕ → ℕ → Bool
matches_id none id = true
matches_id (some wanted) id = id == wanted

abbrev matches_identity : Option ℕ → Option ℕ → Bool
matches_identity none id = true
matches_identity (some wanted) id = id == some wanted

unfoldable pub is_asked_draft :
    ℕ → String → CatalogSellActionStatusQueryDto → List BazosIdentity → BazosAd → Bool
is_asked_draft product_id user_id query identities ad =
    ad.product_id == some product_id
    && (ad.is_active
        && (matches_id query.ad_id ad.id
            && (matches_identity query.identity_id ad.identity_id
                && is_ad_of_user user_id identities ad.identity_id)))

unfoldable pub find_latest_draft_for_status :
    SellEnv → String → ℕ → CatalogSellActionStatusQueryDto → M (Option BazosAd)
unfolding is_asked_draft select
find_latest_draft_for_status env user_id product_id query s = (
  ok (
      first
        (env.by_updated_at (select (is_asked_draft product_id user_id query s.identities) s.ads))),
  s,
)

abbrev draft_status : ListingSite → BazosAd → M (Option StatusResponse)
draft_status site draft = do
  attempt ← find_newest (λ a. a.ad_id == some draft.id)
  mapped ← find_category_mapping draft.category
  identity ← include_identity draft
  return (
      some (record {
        draft = describe_draft site draft;
        identity = identity;
        category_mapped = mapped;
        latest_attempt = attempt;
        published_on_bazos = is_published_on_bazos draft;
        listing_url = build_bazos_listing_url site draft.bazos_ad_id;
        requires_confirmation = draft.publish_status == PublishStatus.draft;
        human_action = requires_human_action draft attempt;
      }))

abbrev status_or_none : ListingSite → Option BazosAd → M (Option StatusResponse)
status_or_none site none = return none
status_or_none site (some draft) = draft_status site draft

unfoldable pub action_status :
    SellEnv → ListingSite → String → ℕ → CatalogSellActionStatusQueryDto → M (Option StatusResponse)
unfolding find_latest_draft_for_status find_newest find_category_mapping include_identity
    describe_draft is_published_on_bazos build_bazos_listing_url requires_human_action
action_status env site user_id product_id query = do
  draft ← find_latest_draft_for_status env user_id product_id query
  status_or_none site draft
