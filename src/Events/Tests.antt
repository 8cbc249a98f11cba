-- ===== src/Events/Tests.antt =====
-- The theorems on the events at a concrete store and concrete messages.
use bazos.Store.Loops.{for_each, catch}
use bazos.Base.{
  ℕ, ◌≡◌, refl, Option, none, some, List, [], ◌∷◌, true, All, nat_eq, codes, pos, select, Permᴰ,
  Optional-discrete, ℕ_discrete, Codes-discrete, String-discrete, find_first,
}
use bazos.Json.{Json, text, obj, field, end, number, Number}
use bazos.Store.{
  Store, stock_updated, stock_out, stock_event_type_eq, catalog_product_archived, PublishStatus,
  StockEventType-discrete, ok, ◌>>=◌,
}
use bazos.Store.Runs.{Ends}
use bazos.Fixtures.{shop, noon, bicycle}
use bazos.Events.{EventEnv, is_of_product}
use bazos.Events.Stock.{
  AdOutcome, updated, project_stock, apply_warehouse_stock_event, handle_stock_event, apply_to_ad,
}
use bazos.Events.StockLaws.{
  shows, apply_warehouse_stock_event-twice, apply_warehouse_stock_event-shows,
}
use bazos.Events.Catalog.{catalog_event_id, is_recorded, apply_non_offerable_catalog_event}
use bazos.Events.CatalogLaws.{is_off_sale, apply_non_offerable_catalog_event-disables}
use bazos.Events.Restock.{project_stock-restock}
use bazos.Events.Sweep.{IsOrder}

abbrev read_id : List ℕ → Option ℕ
read_id [] = none
read_id cs = some 70

abbrev receiver : EventEnv
receiver = record {
  now = noon;
  read_id = read_id;
  read_number = λ cs. none;
  digest = λ cs. cs;
  by_updated_at = λ ads. ads;
}

id-IsOrder : IsOrder (λ ads. ads)
id-IsOrder [] = Permᴰ.nil
id-IsOrder (a ∷ ads) = Permᴰ.cons refl (id-IsOrder ads)

abbrev five : Number
five = record { floor = pos 5; is_whole = true; shown = codes "5" }

abbrev arrived : Option Json
arrived = some (
    obj (
      field "id" (text "e1") (
        field "type" (text "stock.updated")
          (field "productId" (text "70") (field "available" (number five) end)))))

abbrev seventy : List ℕ
seventy = codes "70"

handled_kinds : (handle_stock_event receiver arrived shop).0 ≡ ok (updated ∷ [])
unfolding handle_stock_event Codes-discrete String-discrete ℕ_discrete apply_warehouse_stock_event
    ◌>>=◌ for_each select Optional-discrete apply_to_ad catch find_first
handled_kinds = refl

apply_warehouse_stock_event-twice_example :
    (apply_warehouse_stock_event
      (record receiver { now = 7 })
      arrived
      seventy
      5
      stock_updated
      (apply_warehouse_stock_event receiver arrived seventy 5 stock_updated shop).1).1
    ≡ (apply_warehouse_stock_event receiver arrived seventy 5 stock_updated shop).1
apply_warehouse_stock_event-twice_example =
    apply_warehouse_stock_event-twice receiver 7 arrived seventy 5 stock_updated 70 shop id-IsOrder
      refl

apply_warehouse_stock_event-shows_example :
    All
      (λ x. is_of_product 70 x ≡ true → shows stock_out 0 x ≡ true)
      (apply_warehouse_stock_event receiver arrived seventy 0 stock_out shop).1.ads
apply_warehouse_stock_event-shows_example =
    apply_warehouse_stock_event-shows receiver arrived seventy 0 stock_out 70 shop id-IsOrder refl
      (λ of_product recorded. absurd (cc recorded), tt)

apply_non_offerable_catalog_event-disables_example :
    (t : Store) × (os : List AdOutcome) × Ends
      (apply_non_offerable_catalog_event receiver arrived [] seventy catalog_product_archived)
      shop
      os
      t
    × All
        (λ x.
          is_of_product 70 x ≡ true
          → is_recorded (catalog_event_id receiver arrived [] seventy catalog_product_archived) x
            ≡ true)
        t.ads
    × All (λ x. is_of_product 70 x ≡ true → is_off_sale x ≡ true) t.ads
apply_non_offerable_catalog_event-disables_example =
    apply_non_offerable_catalog_event-disables receiver arrived [] seventy catalog_product_archived
      70 shop id-IsOrder refl (λ of_product recorded. absurd (cc recorded), tt)

project_stock-restock_example :
    ((project_stock 9
        (codes "e2")
        stock_updated
        5
        (project_stock 8 (codes "e1") stock_out 0 bicycle bicycle)
        (project_stock 8 (codes "e1") stock_out 0 bicycle bicycle)).is_active
      ≡ true)
    × ((project_stock 9
          (codes "e2")
          stock_updated
          5
          (project_stock 8 (codes "e1") stock_out 0 bicycle bicycle)
          (project_stock 8 (codes "e1") stock_out 0 bicycle bicycle)).publish_status
        ≡ PublishStatus.draft)
unfolding StockEventType-discrete
project_stock-restock_example =
    project_stock-restock 8 9 (codes "e1") (codes "e2") stock_out 0 4 bicycle bicycle refl
