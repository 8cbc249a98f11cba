-- ===== src/Ad/Ensure.antt =====
-- The calls of Catalog that `createDraft` and its variants make. The client is an argument: each of
-- its functions gives the reply to a request, or `none` where it throws. What the calls change in
-- Catalog is not followed.
use bazos.Base.{
  ℕ, Option, none, some, List, [], ◌∷◌, ◌++◌, Bool, if◌then◌else◌, ◌==◌, nat_eq, option_eq,
  codes_eq, string_eq, String, codes, or_else, find_first,
}
use bazos.Store.{MediaItem, M, return, ◌>>=◌, ◌>>◌, or_throw, bad_request, refused}
use bazos.Store.Loops.{for_each, catch}
use bazos.Ad.Product.{
  CatalogProduct, SeoData, seo_or_none, CreateBazosAdDraftDto, CatalogPayload, normalize_media,
  merge_tags, merge_seo_data, bazos_catalog_tags, is_similar, normalize_catalog_text,
  catalog_payload, is_catalog_product_owner,
}

pub record ProductUpdate : Type 0 where
  pub tags : List (List ℕ)
  pub seo_data : SeoData
  pub resale_enabled : Option Bool

pub record MediaRequest : Type 0 where
  pub product_id : ℕ
  pub url : Option String
  pub thumbnail_url : Option String
  pub alt_text : Option String
  pub title : Option String
  pub position : Option ℕ
  pub is_primary : Bool

-- A file of an upload, by its number and its original name.
pub record UploadedFile : Type 0 where
  pub number : ℕ
  pub original_name : Option String

pub record UploadRequest : Type 0 where
  pub product_id : ℕ
  pub alt_text : String
  pub position : ℕ
  pub is_primary : Bool

-- `search_products title own` is restricted to the caller's own products if `own` is set, which is
-- the case where there is an authorization. `uuid_text` is the text of an identifier, `now_text`
-- that of the clock in base 36.
pub record CatalogClient : Type 0 where
  pub search_products : String → Bool → Option (List CatalogProduct)
  pub create_product : CatalogPayload → Option (Option ℕ)
  pub update_product : ℕ → ProductUpdate → Option (Unit {0})
  pub get_product_by_id : ℕ → Option (Option CatalogProduct)
  pub create_media : MediaRequest → Option (Unit {0})
  pub upload_media : UploadedFile → UploadRequest → Option (Option MediaItem)
  pub uuid_text : ℕ → List ℕ
  pub now_text : List ℕ

-- The reply of another service, or its exception.
abbrev pub reply {ℓ} : {A : Type ℓ} → Option A → M A
reply o = or_throw o refused

abbrev or_title : Option String → Option String → String → Option String
or_title a b title = or_else a (or_else b (some title))

abbrev media_request : ℕ → String → MediaItem → MediaRequest
media_request product_id title item = record {
  product_id = product_id;
  url = item.url;
  thumbnail_url = or_else item.thumbnail_url item.url;
  alt_text = or_else item.alt_text (some title);
  title = or_title item.title item.alt_text title;
  position = item.position;
  is_primary = item.position == some 0;
}

unfoldable pub sync_catalog_media : CatalogClient → ℕ → CreateBazosAdDraftDto → M (List (Unit {0}))
unfolding or_else normalize_media for_each
sync_catalog_media client product_id dto =
    for_each (λ item. reply (client.create_media (media_request product_id dto.title item)))
      (normalize_media dto.media)

unfoldable pub find_similar_catalog_product :
    CatalogClient → String → Bool → M (Option CatalogProduct)
unfolding find_first is_similar normalize_catalog_text
find_similar_catalog_product client title own = do
  items ← reply (client.search_products title own)
  return (find_first (is_similar (normalize_catalog_text (some title))) items)

abbrev resale_for : Option Bool → Bool → Option Bool
resale_for resale_enabled owner = if owner then resale_enabled else none

unfoldable pub mark_catalog_product_as_bazos_version :
    CatalogClient → CatalogProduct → ℕ → CreateBazosAdDraftDto → Option String → M (Unit {0})
unfolding merge_tags merge_seo_data is_catalog_product_owner
mark_catalog_product_as_bazos_version client product id dto user_id = reply (
    client.update_product id (record {
      tags = merge_tags product.tags bazos_catalog_tags;
      seo_data = merge_seo_data product.seo_data dto;
      resale_enabled = resale_for dto.resale_enabled (is_catalog_product_owner product user_id);
    }))

abbrev create_catalog_product : CatalogClient → CreateBazosAdDraftDto → M ℕ
create_catalog_product client dto = do
  created ← reply (client.create_product (catalog_payload client.now_text dto))
  id ← or_throw created bad_request
  _ ← sync_catalog_media client id dto
  return id

-- A product without an identifier counts as none.
abbrev use_existing :
    CatalogClient → Option String → CreateBazosAdDraftDto → Option CatalogProduct → M ℕ
use_existing client user_id dto none = create_catalog_product client dto
use_existing client user_id dto (some product) = with_id product product.id
  where
    with_id : CatalogProduct → Option ℕ → M ℕ
    with_id product none = create_catalog_product client dto
    with_id product (some id) = do
      mark_catalog_product_as_bazos_version client product id dto user_id
      _ ← sync_catalog_media client id dto
      return id

unfoldable pub ensure_catalog_product :
    Option CatalogClient → Option String → CreateBazosAdDraftDto → Bool → M ℕ
unfolding sync_catalog_media catalog_payload find_similar_catalog_product
    mark_catalog_product_as_bazos_version
ensure_catalog_product catalog_client user_id dto own = do
  client ← or_throw catalog_client bad_request
  existing ← find_similar_catalog_product client dto.title own
  use_existing client user_id dto existing

abbrev product_or_none : Option CatalogProduct → CatalogProduct
product_or_none none = record { id = none; title = none; tags = []; seo_data = none; owner = none }
product_or_none (some p) = p

abbrev ad_tag : CatalogClient → ℕ → List ℕ
ad_tag client ad_id = codes "bazos-ad:" ++ client.uuid_text ad_id

abbrev tagged : CatalogClient → ℕ → CatalogProduct → ProductUpdate
tagged client ad_id product =
    let seo = seo_or_none product.seo_data in
    record {
      tags = merge_tags product.tags (bazos_catalog_tags ++ (ad_tag client ad_id ∷ []));
      seo_data = record seo {
        meta_title = or_else seo.meta_title product.title;
        keywords = merge_tags seo.keywords (codes "bazos" ∷ ad_tag client ad_id ∷ []);
      };
      resale_enabled = none;
    }

-- A failure is only logged.
unfoldable pub attach_bazos_draft_tag : Option CatalogClient → ℕ → ℕ → M (Unit {0})
unfolding merge_tags or_else catch
attach_bazos_draft_tag none product_id ad_id = return tt
attach_bazos_draft_tag (some client) product_id ad_id = do
  _ ← catch do
    product ← reply (client.get_product_by_id product_id)
    reply (client.update_product product_id (tagged client ad_id (product_or_none product)))
  return tt
