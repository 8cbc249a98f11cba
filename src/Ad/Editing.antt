-- ===== src/Ad/Editing.antt =====
-- The editing of an ad, and the updates on Bazos that then wait for their confirmation:
-- `updateDraft`, `resolvePendingBazosUpdate`, `findMany`, `findById` and `refreshExternalStatuses`.
-- A public page has the date of the last update as `updated_at`.
use bazos.Base.{
  ℕ, ◌*◌, ◌/◌, Option, none, some, List, [], ◌∷◌, map, Bool, true, false, not, ◌&&◌, ◌||◌,
  if◌then◌else◌, leb, ◌==◌, nat_eq, string_eq, option_eq, bool_eq, String, truthy, or_else, any,
  select,
}
use bazos.Store.{
  BazosAd, BazosIdentity, PolicyCheck, PendingUpdate, check_object, MediaItem, PublishStatus,
  published, deleted, publish_status_eq, M, return, ◌>>=◌, ◌>>◌, throw_if, bad_request, update,
  find_many, bazos_ad,
}
use bazos.Store.Loops.{for_each}
use bazos.Publisher.Options.{normalize_media_overrides, draft_options_of}
use bazos.Ad.{find_by_id_for_user}
use bazos.Ad.Tracking.{TrackingEnv, PublicStatus, available, gone, unclear, mark_deleted_on_bazos}
use bazos.Ad.Refresh.{status_or_failed, refresh_managed_listing_on_open}

pub record UpdateBazosAdDraftDto : Type 0 where
  pub title : Option String
  pub description : Option String
  pub price : Option ℕ
  pub rubric : Option String
  pub price_option : Option String
  pub category : Option String
  pub location : Option String
  pub stock_quantity : Option ℕ
  pub media : Option (List MediaItem)

abbrev is_editable_status : PublishStatus → Bool
is_editable_status status =
    status == PublishStatus.draft
    || status == published
    || status == PublishStatus.active
    || status == deleted

unfoldable pub is_editable : BazosAd → Bool
unfolding truthy
is_editable ad = is_editable_status ad.publish_status || truthy ad.bazos_ad_id

abbrev media_or : Option (List MediaItem) → Option (List MediaItem) → Option (List MediaItem)
media_or none old = old
media_or (some items) old = some items

-- A change of an ad that has a number on Bazos waits for its confirmation there.
abbrev pending_or_kept : ℕ → Option String → PolicyCheck → PolicyCheck
pending_or_kept now none check = check
pending_or_kept now (some bazos_ad_id) check = if bazos_ad_id == "" then check else record check {
  pending_bazos_update = some (record { saved_at = now; bazos_ad_id = bazos_ad_id });
}

unfoldable pub build_updated_policy_state : ℕ → BazosAd → UpdateBazosAdDraftDto → PolicyCheck
unfolding or_else draft_options_of normalize_media_overrides
build_updated_policy_state now ad dto =
    let options = draft_options_of ad.last_policy_check in
    pending_or_kept now ad.bazos_ad_id (record (check_object ad.last_policy_check) {
      draft_options = some (record {
        rubric = or_else dto.rubric (or_else options.rubric none);
        price_option = or_else dto.price_option (or_else options.price_option (some "fixed_price"));
        media = some (normalize_media_overrides (media_or dto.media options.media));
      });
    })

-- A field that is not given is left as it is.
abbrev or_kept {ℓ} : {A : Type ℓ} → Option A → A → A
or_kept none old = old
or_kept (some new) old = new

abbrev or_kept_text : Option String → Option String → Option String
or_kept_text none old = old
or_kept_text (some new) old = some new

abbrev pub has_value {ℓ} : {A : Type ℓ} → Option A → Bool
has_value none = false
has_value (some a) = true

unfoldable pub changes_options : BazosAd → UpdateBazosAdDraftDto → Bool
unfolding truthy
changes_options ad dto =
    truthy dto.rubric || truthy dto.price_option || has_value dto.media || truthy ad.bazos_ad_id

-- The ad as `ad` was read, and `row` is.
unfoldable pub edited : ℕ → BazosAd → UpdateBazosAdDraftDto → BazosAd → BazosAd
unfolding changes_options build_updated_policy_state
edited now ad dto row = record row {
  title = or_kept dto.title row.title;
  description = or_kept_text dto.description row.description;
  price = or_kept dto.price row.price;
  category = or_kept_text dto.category row.category;
  location = or_kept_text dto.location row.location;
  stock_quantity = or_kept dto.stock_quantity row.stock_quantity;
  last_policy_check =
      if changes_options ad dto
      then some (build_updated_policy_state now ad dto)
      else row.last_policy_check;
}

unfoldable pub update_draft : ℕ → ℕ → String → UpdateBazosAdDraftDto → M BazosAd
unfolding find_by_id_for_user is_editable edited
update_draft now id user_id dto = do
  ad ← find_by_id_for_user id user_id
  throw_if (not (is_editable ad)) bad_request
  update bazos_ad id (edited now ad dto)

abbrev pub day : ℕ
day = 24 * 60 * 60000

-- The date of the page is compared with that of the change, both without the time of the day.
unfoldable pub is_external_update_fresh_enough : ℕ → Option ℕ → Bool
is_external_update_fresh_enough saved_at none = false
is_external_update_fresh_enough saved_at (some updated_at) = leb (saved_at / day) (updated_at / day)

-- `updated_at` is the date that the public page of an ad shows, if it can be read.
pub record EditingEnv : Type 0 where
  pub tracking : TrackingEnv
  pub updated_at : BazosAd → Option ℕ

abbrev page_date : EditingEnv → BazosAd → PublicStatus → Option ℕ
page_date env ad (available listing) = env.updated_at ad
page_date env ad (gone reason) = none
page_date env ad (unclear reason) = none

-- The evidence that the code keeps beside is left out.
abbrev confirm_update : EditingEnv → BazosAd → ℕ → PublicStatus → M BazosAd
confirm_update env ad saved_at (gone reason) = mark_deleted_on_bazos env.tracking.now ad reason
confirm_update env ad saved_at status =
    if not (is_external_update_fresh_enough saved_at (page_date env ad status))
    then return ad
    else update bazos_ad ad.id λ row. record row {
      last_policy_check =
          some (record (check_object ad.last_policy_check) { pending_bazos_update = none });
    }

unfoldable pub resolve_pending_bazos_update : EditingEnv → BazosAd → M BazosAd
unfolding truthy is_external_update_fresh_enough mark_deleted_on_bazos
resolve_pending_bazos_update env ad =
    pending (check_object ad.last_policy_check).pending_bazos_update
  where
    pending : Option PendingUpdate → M BazosAd
    pending none = return ad
    pending (some p) =
        if not (truthy ad.bazos_ad_id)
        then return ad
        else confirm_update env ad p.saved_at
            (status_or_failed (env.tracking.fetch_bazos_public_status ad))

-- The updates of different ads do not touch each other; they are taken in the order of the list.
unfoldable pub resolve_pending_bazos_updates : EditingEnv → List BazosAd → M (List BazosAd)
unfolding for_each resolve_pending_bazos_update
resolve_pending_bazos_updates env ads = for_each (resolve_pending_bazos_update env) ads

pub record AdQuery : Type 0 where
  pub is_active : Option Bool
  pub identity_id : Option ℕ
  pub product_id : Option ℕ

abbrev is_of_identities : List ℕ → Option ℕ → Bool
is_of_identities ids none = false
is_of_identities ids (some id) = any (λ n. n == id) ids

abbrev identity_ids : Option ℕ → List ℕ → List ℕ
identity_ids none own = own
identity_ids (some id) own = id ∷ []

abbrev matches_activity : Option Bool → Bool → Bool
matches_activity none b = true
matches_activity (some wanted) b = b == wanted

abbrev matches_product : Option ℕ → Option ℕ → Bool
matches_product none p = true
matches_product (some wanted) p = p == some wanted

unfoldable pub is_listed_for : AdQuery → List ℕ → BazosAd → Bool
unfolding any
is_listed_for query own ad =
    is_of_identities (identity_ids query.identity_id own) ad.identity_id
    && (matches_activity query.is_active ad.is_active
        && matches_product query.product_id ad.product_id)

abbrev pub ids_of_user : String → List BazosIdentity → List ℕ
ids_of_user user_id identities =
    map (λ (i : BazosIdentity). i.id) (select (λ i. i.user_id == some user_id) identities)

-- The order of the ads, which the code asks for by their creation, is `by_updated_at`.
unfoldable pub find_many_ads : EditingEnv → String → AdQuery → M (List BazosAd)
unfolding is_listed_for resolve_pending_bazos_updates select
find_many_ads env user_id query s =
    (do
      ads ← find_many bazos_ad (is_listed_for query (ids_of_user user_id s.identities))
      resolve_pending_bazos_updates env (env.tracking.by_updated_at ads))
      s

unfoldable pub find_ad_by_id : EditingEnv → ℕ → String → M BazosAd
unfolding find_by_id_for_user resolve_pending_bazos_update refresh_managed_listing_on_open
find_ad_by_id env id user_id = do
  ad ← find_by_id_for_user id user_id
  resolved ← resolve_pending_bazos_update env ad
  refresh_managed_listing_on_open env.tracking resolved
