-- ===== src/Offers.antt =====
-- services/bazos-service/src/channel/offers/offers.service.ts and
-- services/bazos-service/src/channel/accounts/accounts.service.ts: the ads and the accounts as the
-- channel lists them, and the synchronisation of ads with Catalog. The data of `create` and `update`
-- is a whole row and a change of a row.
pub mod Steps
pub mod Counts
mod Tests
use bazos.Base.{
  ℕ, ◌+◌, ◌*◌, Option, none, some, List, [], ◌∷◌, Bool, true, false, ◌&&◌, ◌==◌, nat_eq, bool_eq,
  option_eq, if◌then◌else◌, ltb, String, or_else, select, length, find_first,
}
use bazos.Store.{
  Store, BazosAccount, BazosAd, PublishStatus, M, Outcome, ok, err, return, ◌>>=◌, ◌>>◌, or_throw,
  refused, invalid_query, find_unique, find_where, find_many, update, create, bazos_account,
  bazos_ad,
}
use bazos.Store.Loops.{for_each, catch}

pub record OffersQuery : Type 0 where
  pub is_active : Option Bool
  pub account_id : Option ℕ

abbrev has_activity : Option Bool → Bool → Bool
has_activity none b = true
has_activity (some wanted) b = b == wanted

abbrev has_account : Option ℕ → ℕ → Bool
has_account none id = true
has_account (some wanted) id = id == wanted

unfoldable pub find_all_offers : OffersQuery → M (List BazosAd)
unfolding find_many
find_all_offers query =
    find_many bazos_ad
      λ ad. has_activity query.is_active ad.is_active && has_account query.account_id ad.account_id

unfoldable pub create_offer : (ℕ → BazosAd) → M BazosAd
unfolding create
create_offer row = create bazos_ad row

unfoldable pub update_offer : ℕ → (BazosAd → BazosAd) → M BazosAd
unfolding update
update_offer id change = update bazos_ad id change

unfoldable pub delete_offer : ℕ → M BazosAd
unfolding update
delete_offer id = update bazos_ad id λ row. record row { is_active = false }

unfoldable pub find_all_accounts : M (List BazosAccount)
unfolding find_many
find_all_accounts = find_many bazos_account λ a. a.is_active

unfoldable pub find_one_account : ℕ → M (Option BazosAccount)
unfolding find_unique
find_one_account id = find_unique bazos_account id

unfoldable pub create_account : (ℕ → BazosAccount) → M BazosAccount
unfolding create
create_account row = create bazos_account row

unfoldable pub update_account : ℕ → (BazosAccount → BazosAccount) → M BazosAccount
unfolding update
update_account id change = update bazos_account id change

unfoldable pub delete_account : ℕ → M BazosAccount
unfolding update
delete_account id = update bazos_account id λ row. record row { is_active = false }

-- A product of Catalog. A text is `none` where it is not given; a description that is given may be
-- `null`, which is the inner `none`.
pub record SyncProduct : Type 0 where
  pub id : ℕ
  pub title : Option String
  pub name : Option String
  pub description : Option (Option String)

-- The replies of Catalog and Warehouse, `none` where they throw: the products (by activity and
-- limit), the stock of a product, a count of pieces, and its base price in hundredths, which is 0 where there is none.
pub record OffersEnv : Type 0 where
  pub now : ℕ
  pub search_products : Bool → ℕ → Option (List SyncProduct)
  pub total_available : ℕ → Option ℕ
  pub product_price : ℕ → Option ℕ

-- What `findOne` answers: the ad, with the product's stock if both services can be asked.
pub record FoundOffer : Type 0 where
  pub offer : Option BazosAd
  pub stock : Option ℕ

abbrev stock_of : OffersEnv → (ℕ → Bool) → Option BazosAd → Option ℕ
stock_of env has_product none = none
stock_of env has_product (some ad) = of_product ad.product_id
  where
    of_product : Option ℕ → Option ℕ
    of_product none = none
    of_product (some id) = if has_product id then env.total_available id else none

-- `has_product` says whether Catalog answers for a product.
unfoldable pub find_one_offer : OffersEnv → (ℕ → Bool) → ℕ → M FoundOffer
unfolding find_unique
find_one_offer env has_product id = do
  offer ← find_unique bazos_ad id
  return (record { offer = offer; stock = stock_of env has_product offer })

abbrev or_old : Option String → String → String
or_old none old = old
or_old (some new) old = new

abbrev or_old_text : Option (Option String) → Option String → Option String
or_old_text none old = old
or_old_text (some new) old = new

-- A title that is not given is left as it is by an `update`, and refused by a `create`.
abbrev pub synced : SyncProduct → ℕ → ℕ → BazosAd → BazosAd
synced product price stock row = record row {
  title = or_old (or_else product.title product.name) row.title;
  description = or_old_text product.description row.description;
  price = price;
  stock_quantity = stock;
  is_active = ltb 0 stock;
}

abbrev pub lifetime : ℕ
lifetime = 30 * 24 * 60 * 60 * 1000

abbrev pub synced_new : ℕ → ℕ → SyncProduct → String → ℕ → ℕ → ℕ → BazosAd
synced_new now account_id product title price stock id = record {
  id = id;
  account_id = account_id;
  identity_id = none;
  product_id = some product.id;
  bazos_ad_id = none;
  bazos_edit_password = none;
  title = title;
  description = or_old_text product.description none;
  price = price;
  category = none;
  location = none;
  stock_quantity = stock;
  expires_at = some (now + lifetime);
  is_active = ltb 0 stock;
  publish_status = PublishStatus.draft;
  challenge_state = none;
  last_policy_check = none;
  last_published_at = none;
}

pub data Synced : Type 0 where
  created : Synced
  updated : Synced

abbrev pub sync_ad : OffersEnv → ℕ → SyncProduct → ℕ → ℕ → Option BazosAd → M Synced
sync_ad env account_id product price stock (some existing) = do
  _ ← update bazos_ad existing.id (synced product price stock)
  return updated
sync_ad env account_id product price stock none = do
  title ← or_throw (or_else product.title product.name) invalid_query
  _ ← create bazos_ad (synced_new env.now account_id product title price stock)
  return created

unfoldable pub sync_product : OffersEnv → ℕ → SyncProduct → M Synced
unfolding or_else
sync_product env account_id product = do
  stock ← or_throw (env.total_available product.id) refused
  existing ←
      find_where bazos_ad λ ad. ad.account_id == account_id && ad.product_id == some product.id
  price ← or_throw (env.product_price product.id) refused
  sync_ad env account_id product price stock existing

pub record SyncResults : Type 0 where
  pub created_count : ℕ
  pub updated_count : ℕ
  pub failed_count : ℕ
  pub total : ℕ

abbrev pub was_created : Outcome Synced → Bool
was_created (ok created) = true
was_created o = false

abbrev pub was_updated : Outcome Synced → Bool
was_updated (ok updated) = true
was_updated o = false

abbrev pub was_failed : Outcome Synced → Bool
was_failed (err e) = true
was_failed o = false

abbrev pub sync_results : List (Outcome Synced) → List SyncProduct → SyncResults
sync_results outcomes products = record {
  created_count = length (select was_created outcomes);
  updated_count = length (select was_updated outcomes);
  failed_count = length (select was_failed outcomes);
  total = length products;
}

abbrev pub sync_each : OffersEnv → ℕ → SyncProduct → M (Outcome Synced)
sync_each env account_id product = catch (sync_product env account_id product)

-- A failure of one product is counted, and the loop goes on.
unfoldable pub sync_from_catalog : OffersEnv → Option ℕ → ℕ → Bool → M SyncResults
unfolding for_each catch sync_product select
sync_from_catalog env account limit active_only = do
  account_id ← or_throw account refused
  found ← find_unique bazos_account account_id
  _ ← or_throw found refused
  products ← or_throw (env.search_products active_only limit) refused
  outcomes ← for_each (sync_each env account_id) products
  return (sync_results outcomes products)

-- The ad is active afterwards, whatever its status is.
unfoldable pub renew_ad : ℕ → ℕ → ℕ → M BazosAd
unfolding find_unique update
renew_ad now id days = do
  found ← find_unique bazos_ad id
  _ ← or_throw found refused
  update bazos_ad id
      λ row. record row { expires_at = some (now + days * 24 * 60 * 60 * 1000); is_active = true }
