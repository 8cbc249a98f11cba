-- ===== src/SellAction/Draft.antt =====
-- `findOrCreateDraft`: the draft of a product under an identity.
use bazos.Base.{
  ℕ, suc, Option, none, some, List, [], ◌∷◌, Bool, ◌&&◌, ◌||◌, ◌==◌, nat_eq, option_eq, String,
  or_else, ℤ, false,
}
use bazos.Store.{
  BazosAd, MediaItem, PublishStatus, publish_status_eq, M, ◌>>=◌, update, bazos_ad, find_many,
}
use bazos.Publisher.Queue.{PublisherEnv}
use bazos.Policy.Input.{CatalogReply}
use bazos.Ad.Product.{CreateBazosAdDraftDto}
use bazos.Ad.Ensure.{CatalogClient, reply}
use bazos.Ad.Drafts.{build_draft_options}
use bazos.Ad.Uploads.{create_draft_from_catalog}
use bazos.SellAction.Stock.{WarehouseStock, resolve_warehouse_stock}

-- `total_available` is the reply of Warehouse's `getTotalAvailable`, `none` where it throws, and
-- `some none` where the total is no finite number. `get_product_readiness` asks Catalog with the
-- caller's authorization. The two orders are those in which the database lists ads by their creation
-- and by their last change, the newest first.
pub record SellEnv : Type 0 where
  pub publisher : PublisherEnv
  pub total_available : ℕ → Option (Option ℤ)
  pub get_product_readiness : ℕ → CatalogReply
  pub catalog_client : Option CatalogClient
  pub by_created_at : List BazosAd → List BazosAd
  pub by_updated_at : List BazosAd → List BazosAd

pub record PrepareCatalogSellActionDto : Type 0 where
  pub identity_id : ℕ
  pub title : String
  pub description : Option String
  pub price : ℕ
  pub rubric : Option String
  pub price_option : Option String
  pub category : String
  pub location : Option String
  pub stock_quantity : Option ℕ
  pub media : List MediaItem
  pub media_urls : List String

media_from_urls : ℕ → List String → List MediaItem
media_from_urls index [] = []
media_from_urls index (url ∷ urls) =
    record {
      id = some url;
      url = some url;
      thumbnail_url = some url;
      alt_text = none;
      title = none;
      position = some index;
    }
    ∷ media_from_urls (suc index) urls

unfoldable pub media_from_dto : List MediaItem → List String → List MediaItem
unfolding media_from_urls
media_from_dto [] urls = media_from_urls 0 urls
media_from_dto (item ∷ items) urls = item ∷ items

abbrev is_reusable_status : PublishStatus → Bool
is_reusable_status status =
    status == PublishStatus.draft
    || status == PublishStatus.blocked_policy
    || status == PublishStatus.failed
    || status == PublishStatus.challenge

unfoldable pub is_reusable : ℕ → ℕ → BazosAd → Bool
is_reusable product_id identity_id ad =
    ad.product_id == some product_id
    && (ad.identity_id == some identity_id
        && (ad.is_active && is_reusable_status ad.publish_status))

-- The stock that is kept beside the options is left out.
unfoldable pub renewed_draft :
    PrepareCatalogSellActionDto → WarehouseStock → List MediaItem → BazosAd → BazosAd
unfolding or_else build_draft_options
renewed_draft dto stock media row = record row {
  title = dto.title;
  description = or_else dto.description none;
  price = dto.price;
  category = some dto.category;
  location = or_else dto.location none;
  stock_quantity = stock.quantity;
  publish_status = PublishStatus.draft;
  challenge_state = none;
  bazos_ad_id = none;
  last_policy_check = some (build_draft_options dto.rubric dto.price_option (some media));
}

abbrev pub catalog_draft :
    ℕ → PrepareCatalogSellActionDto → WarehouseStock → List MediaItem → CreateBazosAdDraftDto
catalog_draft product_id dto stock media = record {
  identity_id = dto.identity_id;
  product_id = some product_id;
  title = dto.title;
  description = dto.description;
  price = dto.price;
  rubric = dto.rubric;
  price_option = dto.price_option;
  category = some dto.category;
  location = dto.location;
  stock_quantity = some stock.quantity;
  brand = none;
  manufacturer = none;
  ean = none;
  weight_kg = none;
  dimensions_cm = none;
  save_to_catalog = false;
  resale_enabled = none;
  media = some media;
}

-- `createDraftFromCatalog` is called without an authorization.
abbrev pub renew_or_create :
    SellEnv
    → String
    → ℕ
    → PrepareCatalogSellActionDto
    → WarehouseStock
    → List MediaItem
    → Option BazosAd
    → M BazosAd
renew_or_create env user_id product_id dto stock media (some existing) =
    update bazos_ad existing.id (renewed_draft dto stock media)
renew_or_create env user_id product_id dto stock media none =
    create_draft_from_catalog env.catalog_client user_id (catalog_draft product_id dto stock media)
      false

abbrev pub first : List BazosAd → Option BazosAd
first [] = none
first (ad ∷ ads) = some ad

unfoldable pub find_or_create_draft : SellEnv → String → ℕ → PrepareCatalogSellActionDto → M BazosAd
unfolding media_from_dto resolve_warehouse_stock renewed_draft create_draft_from_catalog is_reusable
find_or_create_draft env user_id product_id dto = do
  total ← reply (env.total_available product_id)
  found ← find_many bazos_ad (is_reusable product_id dto.identity_id)
  renew_or_create env user_id product_id dto (resolve_warehouse_stock total dto.stock_quantity)
      (media_from_dto dto.media dto.media_urls) (first (env.by_created_at found))
