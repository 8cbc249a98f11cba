-- ===== src/Events.antt =====
-- shared/rabbitmq/stock-events.subscriber.ts and shared/rabbitmq/catalog-product-events.subscriber.ts:
-- how the events of Warehouse and of Catalog change the ads of a product. The message is JSON that
-- has been parsed already.
pub mod Stock
pub mod Catalog
pub mod Sweep
pub mod StockLaws
pub mod CatalogLaws
pub mod Restock
mod Tests
use bazos.Base.{ℕ, Option, none, some, List, Bool, ◌==◌, nat_eq, option_eq, select, trim, ℤ}
use bazos.Json.{Json, shown_or_empty}
use bazos.Store.{Store, BazosAd, M, ok, err, invalid_query}

-- `read_id` is the identifier that a text denotes, where the database takes it for one; `read_number`
-- is the whole number below the one that a text denotes; `digest` is the start of a SHA-256 digest;
-- `by_updated_at` is the order in which the database lists rows.
pub record EventEnv : Type 0 where
  pub now : ℕ
  pub read_id : List ℕ → Option ℕ
  pub read_number : List ℕ → Option ℤ
  pub digest : List ℕ → List ℕ
  pub by_updated_at : List BazosAd → List BazosAd

unfoldable pub normalize_product_id : Option Json → List ℕ
unfolding shown_or_empty trim
normalize_product_id v = trim (shown_or_empty v)

abbrev pub is_of_product : ℕ → BazosAd → Bool
is_of_product p a = a.product_id == some p

-- `findMany({ where: { productId }, orderBy: { updatedAt: 'asc' } })`
abbrev pub ads_of : EventEnv → Option ℕ → M (List BazosAd)
ads_of env none s = (err invalid_query, s)
ads_of env (some p) s = (ok (env.by_updated_at (select (is_of_product p) s.ads)), s)
