-- ===== src/Ad/Product.antt =====
-- What shared/bazos/ad/bazos-ad.service.ts sends to Catalog for an ad: the payload of a product, its
-- tags, and the product that is taken for the same one. Texts that are compared or put together are
-- lists of code points.
use bazos.Base.{
  ℕ, suc, Option, none, some, List, [], ◌∷◌, ◌++◌, Bool, false, not, ◌&&◌, ◌||◌, if◌then◌else◌, leb,
  ◌==◌, nat_eq, codes_eq, string_eq, String, codes, truthy, or_else, take, select, includes,
  replace_runs, is_space, trim_text,
}
use mathlib.Core.List.{reverse}
use bazos.Json.{Json, is_truthy, trimmed_lower, shown}
use bazos.Store.{MediaItem}
use bazos.Publisher.Options.{is_http_url}

pub record SeoData : Type 0 where
  pub meta_title : Option String
  pub meta_description : Option String
  pub keywords : List (List ℕ)

-- A product as Catalog returns it. `tags` is empty where it is no array.
pub record CatalogProduct : Type 0 where
  pub id : Option ℕ
  pub title : Option String
  pub tags : List (List ℕ)
  pub seo_data : Option SeoData
  pub owner : Option Json

pub record CreateBazosAdDraftDto : Type 0 where
  pub identity_id : ℕ
  pub product_id : Option ℕ
  pub title : String
  pub description : Option String
  pub price : ℕ
  pub rubric : Option String
  pub price_option : Option String
  pub category : Option String
  pub location : Option String
  pub stock_quantity : Option ℕ
  pub brand : Option String
  pub manufacturer : Option String
  pub ean : Option String
  pub weight_kg : Option Json
  pub dimensions_cm : Option Json
  pub save_to_catalog : Bool
  pub resale_enabled : Option Bool
  pub media : Option (List MediaItem)

abbrev position_or : ℕ → Option ℕ → Option ℕ
position_or index none = some index
position_or index (some n) = some n

abbrev trimmed_url : Option String → Option String
trimmed_url none = none
trimmed_url (some s) = some (trim_text s)

unfoldable pub media_item : ℕ → MediaItem → MediaItem
unfolding or_else trim_text
media_item index item = record {
  id = or_else item.id item.url;
  url = trimmed_url item.url;
  thumbnail_url = or_else item.thumbnail_url item.url;
  alt_text = or_else item.alt_text (or_else item.title (some ""));
  title = or_else item.title (or_else item.alt_text (some ""));
  position = position_or index item.position;
}

media_from : ℕ → List MediaItem → List MediaItem
unfolding media_item
media_from index [] = []
media_from index (item ∷ items) = media_item index item ∷ media_from (suc index) items

abbrev media_items : Option (List MediaItem) → List MediaItem
media_items none = []
media_items (some items) = items

abbrev pub bazos_media_limit : ℕ
bazos_media_limit = 20

unfoldable pub normalize_media : Option (List MediaItem) → List MediaItem
unfolding media_from is_http_url select
normalize_media media = media_from 0 (
    take bazos_media_limit
      (select (λ (item : MediaItem). is_http_url item.url) (media_items media)))

-- `Array.from(new Set(values))`
unfoldable pub distinct : List (List ℕ) → List (List ℕ)
unfolding select
distinct [] = []
distinct (x ∷ xs) = x ∷ select (λ y. not (y == x)) (distinct xs)

unfoldable pub merge_tags : List (List ℕ) → List (List ℕ) → List (List ℕ)
unfolding distinct select
merge_tags existing additions = distinct (select (λ t. not (t == [])) (existing ++ additions))

abbrev pub bazos_catalog_tags : List (List ℕ)
bazos_catalog_tags = codes "bazos" ∷ codes "bazos-draft" ∷ []

abbrev optional_tag : Option String → List (List ℕ)
optional_tag none = []
optional_tag (some s) = if s == "" then [] else codes s ∷ []

abbrev no_seo : SeoData
no_seo = record { meta_title = none; meta_description = none; keywords = [] }

abbrev pub seo_or_none : Option SeoData → SeoData
seo_or_none none = no_seo
seo_or_none (some d) = d

unfoldable pub merge_seo_data : Option SeoData → CreateBazosAdDraftDto → SeoData
unfolding or_else merge_tags
merge_seo_data existing dto =
    let seo = seo_or_none existing in
    record {
      meta_title = or_else seo.meta_title (some dto.title);
      meta_description = or_else seo.meta_description (or_else dto.description none);
      keywords =
          merge_tags seo.keywords
            (codes "bazos" ∷ codes "bazos-version" ∷ optional_tag dto.category);
    }

abbrev text_codes : Option String → List ℕ
text_codes none = []
text_codes (some s) = codes s

unfoldable pub normalize_catalog_text : Option String → List ℕ
unfolding trimmed_lower replace_runs is_space
normalize_catalog_text value = replace_runs is_space b' ' (trimmed_lower (text_codes value))

-- The test of `findSimilarCatalogProduct` for one product.
unfoldable pub is_similar : List ℕ → CatalogProduct → Bool
unfolding normalize_catalog_text includes
is_similar normalized_title product =
    let candidate = normalize_catalog_text product.title in
    candidate == normalized_title
    || includes candidate normalized_title
    || includes normalized_title candidate

abbrev is_slug_char : ℕ → Bool
is_slug_char c = (leb b'a' c && leb c b'z') || (leb b'0' c && leb c b'9')

abbrev drop_hyphen : List ℕ → List ℕ
drop_hyphen [] = []
drop_hyphen (c ∷ cs) = if c == b'-' then cs else c ∷ cs

abbrev or_inzerat : List ℕ → List ℕ
or_inzerat [] = codes "inzerat"
or_inzerat (c ∷ cs) = c ∷ cs

unfoldable pub catalog_slug : String → List ℕ
unfolding normalize_catalog_text replace_runs
catalog_slug title =
    let hyphenated =
      replace_runs (λ c. not (is_slug_char c)) b'-' (normalize_catalog_text (some title)) in
    or_inzerat (take 48 (reverse (drop_hyphen (reverse (drop_hyphen hyphenated)))))

-- `now_text` is `Date.now().toString(36)`.
unfoldable pub bazos_catalog_sku : List ℕ → String → List ℕ
unfolding catalog_slug
bazos_catalog_sku now_text title = codes "BAZOS-" ++ (catalog_slug title ++ (b'-' ∷ now_text))

-- The payload's `isActive` is false and its `lifecycle` is `draft`.
pub record CatalogPayload : Type 0 where
  pub sku : List ℕ
  pub title : String
  pub description : Option String
  pub is_active : Bool
  pub lifecycle : String
  pub tags : List (List ℕ)
  pub brand : Option String
  pub manufacturer : Option String
  pub ean : Option String
  pub weight_kg : Option Json
  pub dimensions_cm : Option Json
  pub seo_data : SeoData
  pub resale_enabled : Option Bool

abbrev json_or_none : Option Json → Option Json
json_or_none v = if is_truthy v then v else none

unfoldable pub catalog_payload : List ℕ → CreateBazosAdDraftDto → CatalogPayload
unfolding bazos_catalog_sku merge_seo_data or_else is_truthy
catalog_payload now_text dto = record {
  sku = bazos_catalog_sku now_text dto.title;
  title = dto.title;
  description = or_else dto.description none;
  is_active = false;
  lifecycle = "draft";
  tags = bazos_catalog_tags;
  brand = or_else dto.brand none;
  manufacturer = or_else dto.manufacturer none;
  ean = or_else dto.ean none;
  weight_kg = json_or_none dto.weight_kg;
  dimensions_cm = json_or_none dto.dimensions_cm;
  seo_data = merge_seo_data none dto;
  resale_enabled = dto.resale_enabled;
}

-- `owner` is the first of the product's fields for an owner that is given.
unfoldable pub is_catalog_product_owner : CatalogProduct → Option String → Bool
unfolding truthy is_truthy shown
is_catalog_product_owner product user_id =
    truthy user_id && (is_truthy product.owner && owner_text product.owner == text_codes user_id)
  where
    owner_text : Option Json → List ℕ
    owner_text none = []
    owner_text (some v) = shown v
