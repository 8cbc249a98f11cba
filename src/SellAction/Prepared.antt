-- ===== src/SellAction/Prepared.antt =====
-- What the preparation of a draft does, and what it leaves alone.
use bazos.Base.{ℕ, ◌≤◌, ◌≡◌, refl, subst, Option, none, some, List, false, String, arith, ℤ}
use bazos.Store.{Store, BazosAd, MediaItem, PublishStatus, bazos_ad}
use bazos.Store.Runs.{Ends, bind-Ends, or_throw-Ends, update-Ends}
use bazos.Ad.Uploads.{create_draft_from_catalog, from_catalog}
use bazos.Ad.Created.{create_draft-IsDraftOf}
use bazos.SellAction.Stock.{resolve_warehouse_stock, normalize_stock_quantity, requested_or}
use bazos.SellAction.Draft.{
  SellEnv, PrepareCatalogSellActionDto, find_or_create_draft, renew_or_create, renewed_draft,
  catalog_draft, first, media_from_dto,
}

-- The draft offers at most what is there and what was asked for; it is not on Bazos, and no challenge
-- is recorded on it.
pub record IsPrepared (total : Option ℤ) (requested : Option ℕ) (ad : BazosAd) : Type 0 where
  pub is_draft : ad.publish_status ≡ PublishStatus.draft
  pub unchallenged : ad.challenge_state ≡ none
  pub unlisted : ad.bazos_ad_id ≡ none
  pub in_stock : ad.stock_quantity ≤ normalize_stock_quantity total
  pub asked : ad.stock_quantity ≤ requested_or (normalize_stock_quantity total) requested

resolved-bounds :
    (total : Option ℤ) (requested : Option ℕ)
    → ((resolve_warehouse_stock total requested).quantity ≤ normalize_stock_quantity total)
      × ((resolve_warehouse_stock total requested).quantity
          ≤ requested_or (normalize_stock_quantity total) requested)
unfolding resolve_warehouse_stock
resolved-bounds total requested = (ground arith, ground arith)

renew_or_create-IsPrepared :
    (env : SellEnv) (user_id : String) (product_id : ℕ) (dto : PrepareCatalogSellActionDto)
    (total : Option ℤ) (media : List MediaItem) (o : Option BazosAd) {s u : Store} {ad : BazosAd}
    → Ends
        (renew_or_create env user_id product_id dto
          (resolve_warehouse_stock total dto.stock_quantity)
          media
          o)
        s
        ad
        u
    → IsPrepared total dto.stock_quantity ad
unfolding renewed_draft create_draft_from_catalog
renew_or_create-IsPrepared env user_id product_id dto total media (some existing) e =
    let stock = resolve_warehouse_stock total dto.stock_quantity in
    let (_, _, made, _) = update-Ends bazos_ad existing.id (renewed_draft dto stock media) e in
    let (in_stock, asked) = resolved-bounds total dto.stock_quantity in
    subst (IsPrepared total dto.stock_quantity) made (record {
      is_draft = refl;
      unchallenged = refl;
      unlisted = refl;
      in_stock = in_stock;
      asked = asked;
    })
renew_or_create-IsPrepared env user_id product_id dto total media none {s} {u} {ad} e =
    let stock = resolve_warehouse_stock total dto.stock_quantity in
    let d =
      create_draft-IsDraftOf env.catalog_client user_id
        (from_catalog (catalog_draft product_id dto stock media)) false s u ad e in
    let (in_stock, asked) = resolved-bounds total dto.stock_quantity in
    let same : ad.stock_quantity ≡ stock.quantity = d.stock in
    record {
      is_draft = d.is_draft;
      unchallenged = d.unchallenged;
      unlisted = d.unlisted;
      in_stock = omega (arith, same, in_stock);
      asked = omega (arith, same, asked);
    }

-- A draft that is prepared, whether an old one is taken again or a new one is made, has the status
-- `draft`, no challenge and no number on Bazos. It offers at most the total that Warehouse has of
-- the product, and at most what was asked for.
pub find_or_create_draft-IsPrepared :
    (env : SellEnv) (user_id : String) (product_id : ℕ) (dto : PrepareCatalogSellActionDto)
    (s u : Store) (ad : BazosAd)
    → Ends (find_or_create_draft env user_id product_id dto) s ad u
    → (total : Option ℤ) × (env.total_available product_id ≡ some total)
      × IsPrepared total dto.stock_quantity ad
unfolding find_or_create_draft
find_or_create_draft-IsPrepared env user_id product_id dto s u ad e =
    let (total, _, replied, e1) = bind-Ends e in
    let (found, _, _, e2) = bind-Ends e1 in
    (
      total,
      (or_throw-Ends _ _ replied).0,
      renew_or_create-IsPrepared env user_id product_id dto total
          (media_from_dto dto.media dto.media_urls) (first (env.by_created_at found)) e2,
    )
