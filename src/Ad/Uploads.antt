-- ===== src/Ad/Uploads.antt =====
-- `createDraftWithUploadedMedia` and `createDraftFromCatalog`.
use bazos.Base.{
  ℕ, suc, ◌-◌, Option, none, some, List, [], ◌∷◌, ◌++◌, Bool, true, false, ◌==◌, nat_eq, string_eq,
  if◌then◌else◌, String, or_else, take, length,
}
use bazos.Store.{BazosAd, MediaItem, M, return, ◌>>=◌, or_throw, bad_request}
use bazos.Ad.Product.{CreateBazosAdDraftDto, normalize_media, bazos_media_limit}
use bazos.Ad.Ensure.{CatalogClient, UploadedFile, reply, ensure_catalog_product}
use bazos.Ad.Drafts.{create_draft}

abbrev product_or_ensured : CatalogClient → String → CreateBazosAdDraftDto → Bool → Option ℕ → M ℕ
product_or_ensured client user_id dto own (some id) = return id
product_or_ensured client user_id dto own none =
    ensure_catalog_product (some client) (some user_id) dto own

-- The item that is kept of an upload, unless the reply has no address.
abbrev uploaded_item : String → UploadedFile → ℕ → Option MediaItem → List MediaItem
uploaded_item title file position none = []
uploaded_item title file position (some item) = with_url item.url
  where
    with_url : Option String → List MediaItem
    with_url none = []
    with_url (some url) =
        if url == ""
        then []
        else record {
          id = or_else item.id (some url);
          url = some url;
          thumbnail_url = or_else item.thumbnail_url (some url);
          alt_text = or_else item.alt_text (some title);
          title = or_else item.title (or_else file.original_name (some title));
          position = some position;
        }
          ∷ []

unfoldable pub upload_from : CatalogClient → ℕ → String → ℕ → List UploadedFile → M (List MediaItem)
unfolding or_else
upload_from client product_id title position [] = return []
upload_from client product_id title position (file ∷ files) = do
  uploaded ← reply (
      client.upload_media file (record {
        product_id = product_id;
        alt_text = title;
        position = position;
        is_primary = position == 0;
      }))
  rest ← upload_from client product_id title (suc position) files
  return (uploaded_item title file position uploaded ++ rest)

unfoldable pub normalized_files : CreateBazosAdDraftDto → List UploadedFile → List UploadedFile
unfolding normalize_media
normalized_files dto files = take (bazos_media_limit - length (normalize_media dto.media)) files

abbrev with_product : CreateBazosAdDraftDto → ℕ → List MediaItem → CreateBazosAdDraftDto
with_product dto product_id uploaded = record dto {
  product_id = some product_id;
  save_to_catalog = true;
  media = some (normalize_media dto.media ++ uploaded);
}

abbrev create_with_files :
    Option CatalogClient → String → CreateBazosAdDraftDto → Bool → List UploadedFile → M BazosAd
create_with_files client user_id dto own [] = create_draft client user_id dto own
create_with_files client user_id dto own (file ∷ files) = do
  catalog ← or_throw client bad_request
  product_id ← product_or_ensured catalog user_id dto own dto.product_id
  uploaded ←
      upload_from catalog product_id dto.title (length (normalize_media dto.media)) (file ∷ files)
  create_draft client user_id (with_product dto product_id uploaded) own

unfoldable pub create_draft_with_uploaded_media :
    Option CatalogClient → String → CreateBazosAdDraftDto → List UploadedFile → Bool → M BazosAd
unfolding normalized_files ensure_catalog_product upload_from create_draft
create_draft_with_uploaded_media client user_id dto files own =
    create_with_files client user_id dto own (normalized_files dto files)

-- A draft for a product that is there: nothing is saved to Catalog.
abbrev pub from_catalog : CreateBazosAdDraftDto → CreateBazosAdDraftDto
from_catalog dto = record dto { save_to_catalog = false; resale_enabled = none }

unfoldable pub create_draft_from_catalog :
    Option CatalogClient → String → CreateBazosAdDraftDto → Bool → M BazosAd
unfolding create_draft
create_draft_from_catalog client user_id dto own =
    create_draft client user_id (from_catalog dto) own
