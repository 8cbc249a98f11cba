-- ===== src/Ad/Drafts.antt =====
-- `createDraft`.
use bazos.Base.{
  ℕ, Option, none, some, List, Bool, true, false, ◌&&◌, ◌==◌, nat_eq, option_eq, codes_eq,
  string_eq, String, or_else, length,
}
use bazos.Store.{
  BazosAd, BazosIdentity, PolicyCheck, empty_check, MediaItem, PublishStatus, M, return, ◌>>=◌,
  ◌>>◌, throw_if, or_throw, not_found, bad_request, find_where, create, bazos_ad, bazos_identity,
}
use bazos.Publisher.Options.{normalize_media_overrides}
use bazos.Ad.Product.{CreateBazosAdDraftDto, normalize_media}
use bazos.Ad.Ensure.{CatalogClient, ensure_catalog_product, attach_bazos_draft_tag}

unfoldable pub build_draft_options :
    Option String → Option String → Option (List MediaItem) → PolicyCheck
unfolding or_else normalize_media_overrides
build_draft_options rubric price_option media = record empty_check {
  draft_options = some (record {
    rubric = or_else rubric none;
    price_option = or_else price_option (some "fixed_price");
    media = some (normalize_media_overrides media);
  });
}

unfoldable pub product_for_draft :
    Option CatalogClient → String → CreateBazosAdDraftDto → Bool → M (Option ℕ)
unfolding ensure_catalog_product
product_for_draft client user_id dto own = given dto.product_id dto.save_to_catalog
  where
    given : Option ℕ → Bool → M (Option ℕ)
    given (some id) save = return (some id)
    given none false = return none
    given none true = do id ← ensure_catalog_product client (some user_id) dto own; return (some id)

abbrev pub or_no_stock : Option ℕ → ℕ
or_no_stock none = 0
or_no_stock (some n) = n

-- The row of a new draft, with the defaults of the columns that `create` does not set.
unfoldable pub new_draft : ℕ → CreateBazosAdDraftDto → Option ℕ → List MediaItem → ℕ → BazosAd
unfolding or_else build_draft_options
new_draft account_id dto product_id media id = record {
  id = id;
  account_id = account_id;
  identity_id = some dto.identity_id;
  product_id = product_id;
  bazos_ad_id = none;
  bazos_edit_password = none;
  title = dto.title;
  description = or_else dto.description none;
  price = dto.price;
  category = or_else dto.category none;
  location = or_else dto.location none;
  stock_quantity = or_no_stock dto.stock_quantity;
  expires_at = none;
  is_active = true;
  publish_status = PublishStatus.draft;
  challenge_state = none;
  last_policy_check = some (build_draft_options dto.rubric dto.price_option (some media));
  last_published_at = none;
}

abbrev tag_if_saved : Option CatalogClient → Bool → Option ℕ → ℕ → M (Unit {0})
tag_if_saved client true (some product_id) ad_id = attach_bazos_draft_tag client product_id ad_id
tag_if_saved client true none ad_id = return tt
tag_if_saved client false product_id ad_id = return tt

abbrev pub is_own_identity : ℕ → String → BazosIdentity → Bool
is_own_identity id user_id i = i.id == id && i.user_id == some user_id

unfoldable pub create_draft :
    Option CatalogClient → String → CreateBazosAdDraftDto → Bool → M BazosAd
unfolding new_draft normalize_media product_for_draft attach_bazos_draft_tag
create_draft client user_id dto own = do
  found ← find_where bazos_identity (is_own_identity dto.identity_id user_id)
  identity ← or_throw found not_found
  account_id ← or_throw identity.account_id bad_request
  throw_if (length (normalize_media dto.media) == 0) bad_request
  product_id ← product_for_draft client user_id dto own
  ad ← create bazos_ad (new_draft account_id dto product_id (normalize_media dto.media))
  tag_if_saved client dto.save_to_catalog product_id ad.id
  return ad
