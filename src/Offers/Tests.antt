-- ===== src/Offers/Tests.antt =====
-- The theorem on the synchronisation, with one product that is new and one without stock figures.
use bazos.Base.{
  ℕ, ◌+◌, ◌≡◌, refl, none, some, List, [], ◌∷◌, true, length, if◌then◌else◌, ◌==◌, nat_eq, select,
  find_first, or_else, truthy, ℕ_discrete, Optional-discrete, String-discrete,
}
use bazos.Store.{Store, BazosAccount, by_key, ◌>>=◌}
use bazos.Store.Runs.{Ends}
use bazos.Store.Loops.{for_each, catch}
use bazos.Offers.{OffersEnv, SyncProduct, SyncResults, sync_from_catalog, sync_product}
use bazos.Offers.Steps.{Synchronises}
use bazos.Offers.Counts.{sync_from_catalog-counts}
use bazos.Fixtures.{shop, noon}

abbrev main_account : BazosAccount
main_account = record { id = 9; user_id = some "eva"; email = []; is_active = true; created_at = 1 }

abbrev account_shop : Store
account_shop = record shop { accounts = main_account ∷ [] }

abbrev lamp : ℕ → SyncProduct
lamp id = record { id = id; title = some "Lamp"; name = none; description = none }

abbrev two_lamps : OffersEnv
two_lamps = record {
  now = noon;
  search_products = λ active limit. some (lamp 71 ∷ lamp 72 ∷ []);
  total_available = λ id. if id == 71 then some 4 else none;
  product_price = λ id. some 50000;
}

abbrev synced_results : SyncResults
synced_results = record { created_count = 1; updated_count = 0; failed_count = 1; total = 2 }

synced-Ends :
    Ends
      (sync_from_catalog two_lamps (some 9) 100 true)
      account_shop
      synced_results
      (sync_from_catalog two_lamps (some 9) 100 true account_shop).1
unfolding sync_from_catalog sync_product for_each catch select find_first or_else truthy ◌>>=◌
    ℕ_discrete Optional-discrete String-discrete
synced-Ends = record { value = refl; store = refl }

sync_from_catalog-counts_example :
    (id : ℕ) × (products : List SyncProduct) × (some 9 ≡ some id)
    × ((a : BazosAccount) × (by_key (λ (x : BazosAccount). x.id) id account_shop.accounts ≡ some a))
    × (some (lamp 71 ∷ lamp 72 ∷ []) ≡ some products)
    × Synchronises two_lamps id products account_shop
        (sync_from_catalog two_lamps (some 9) 100 true account_shop).1
        1
        0
        1
    × (2 ≡ length products)
    × (1 + (0 + 1) ≡ 2)
sync_from_catalog-counts_example =
    sync_from_catalog-counts two_lamps (some 9) 100 true account_shop
      (sync_from_catalog two_lamps (some 9) 100 true account_shop).1 synced_results synced-Ends
