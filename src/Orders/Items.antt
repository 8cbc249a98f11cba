-- ===== src/Orders/Items.antt =====
-- `buildCentralOrderItems` and its helpers: the lines of an order as the items that Orders is sent.
use bazos.Base.{
  ℕ, Option, none, some, List, [], ◌∷◌, if◌then◌else◌, codes, String, trim, ◌==◌, string_eq,
}
use bazos.Json.{Json, get, path, given_or, first_truthy, is_truthy, shown}
use bazos.Store.{Store, BazosAd, Outcome, ok, err, Error}
use bazos.Orders.{OrdersEnv}
use bazos.Orders.Query.{clean_identifier}
use bazos.Orders.SourceLines.{has_line_identifier, extract_source_lines}
use bazos.Orders.Lines.{find_bazos_ad_for_line}

-- Numbers of JavaScript are an argument: `read_positive` is `Number(value)` where that is finite and
-- positive, and `price_of` the number of a price. `check_document` is the JSON document that the column
-- `lastPolicyCheck` of a row holds.
pub record ItemsEnv (A : Type 0) : Type 0 where
  pub orders : OrdersEnv
  pub read_positive : Json → Option A
  pub zero_amount : A
  pub one_amount : A
  pub times_amount : A → A → A
  pub divide_amount : A → A → A
  pub price_of : ℕ → A
  pub check_document : BazosAd → Option Json

pub record CentralOrderItem (A : Type 0) : Type 0 where
  pub product_id : List ℕ
  pub warehouse_id : List ℕ
  pub sku : Option Json
  pub title : List ℕ
  pub quantity : A
  pub unit_price : A
  pub total_price : A

-- The reasons of an unavailable mapping, in the order in which they are found.
pub data MissingReason : Type 0 where
  no_lines unknown_ad no_product_of_ad no_product no_warehouse no_items : MissingReason

pub data ItemMapping (A : Type 0) : Type 0 where
  available : List (CentralOrderItem A) → ItemMapping A
  unavailable : MissingReason → ItemMapping A
  thrown : Error → ItemMapping A

pub data LineMapping (A : Type 0) : Type 0 where
  mapped : CentralOrderItem A → LineMapping A
  unmapped : MissingReason → LineMapping A
  failed : Error → LineMapping A

abbrev pub or_codes : List ℕ → List ℕ → List ℕ
or_codes [] ds = ds
or_codes (c ∷ cs) ds = c ∷ cs

abbrev pub first_clean : Option Json → List (List String) → List ℕ
first_clean v [] = []
first_clean v (p ∷ ps) = or_codes (clean_identifier (path v p)) (first_clean v ps)

-- Where the id of the warehouse can stand in a line, and in the check of an ad.
abbrev pub line_paths : List (List String)
line_paths =
    ("warehouseId" ∷ [])
    ∷ ("warehouse" ∷ "id" ∷ [])
    ∷ ("warehouse" ∷ "warehouseId" ∷ [])
    ∷ ("stock" ∷ "warehouseId" ∷ [])
    ∷ ("inventory" ∷ "warehouseId" ∷ [])
    ∷ ("fulfillment" ∷ "warehouseId" ∷ [])
    ∷ []

abbrev pub check_paths : List (List String)
check_paths =
    ("warehouseId" ∷ [])
    ∷ ("warehouse" ∷ "id" ∷ [])
    ∷ ("warehouse" ∷ "warehouseId" ∷ [])
    ∷ ("warehouseStock" ∷ "warehouseId" ∷ [])
    ∷ ("warehouseStock" ∷ "warehouse" ∷ "id" ∷ [])
    ∷ ("warehouseStock" ∷ "warehouse" ∷ "warehouseId" ∷ [])
    ∷ ("draftOptions" ∷ "warehouseId" ∷ [])
    ∷ ("draftOptions" ∷ "warehouse" ∷ "id" ∷ [])
    ∷ ("draftOptions" ∷ "warehouse" ∷ "warehouseId" ∷ [])
    ∷ ("draftOptions" ∷ "warehouseStock" ∷ "warehouseId" ∷ [])
    ∷ ("draftOptions" ∷ "warehouseStock" ∷ "warehouse" ∷ "id" ∷ [])
    ∷ ("draftOptions" ∷ "warehouseStock" ∷ "warehouse" ∷ "warehouseId" ∷ [])
    ∷ ("warehouseRoute" ∷ "warehouseId" ∷ [])
    ∷ ("warehouseRoute" ∷ "warehouse" ∷ "id" ∷ [])
    ∷ ("warehouseRoute" ∷ "warehouse" ∷ "warehouseId" ∷ [])
    ∷ []

module _ {A : Type 0} (env : ItemsEnv A) where
  abbrev check_of : Option BazosAd → Option Json
  check_of none = none
  check_of (some ad) = env.check_document ad

  unfoldable pub resolve_warehouse_id : Json → Option BazosAd → List ℕ
  unfolding clean_identifier path
  resolve_warehouse_id line ad =
      or_codes (first_clean (some line) line_paths) (first_clean (check_of ad) check_paths)

  abbrev pub to_positive : Option Json → Option A
  to_positive none = none
  to_positive (some v) = env.read_positive v

  abbrev pub or_amount : Option A → A → A
  or_amount none d = d
  or_amount (some a) d = a

  unfoldable pub to_positive_number : Option Json → A → A
  to_positive_number v fallback = or_amount (to_positive v) fallback

  abbrev pub given_total : Json → Option Json
  given_total line = given_or (get (some line) "totalPrice") (get (some line) "total")

  abbrev ad_price : Option BazosAd → A
  ad_price none = env.zero_amount
  ad_price (some ad) = env.price_of ad.price

  -- The quantity is positive, so its test holds.
  abbrev pub price_from : Option A → Option A → Option BazosAd → A → A
  price_from (some price) total ad quantity = price
  price_from none (some total) ad quantity = env.divide_amount total quantity
  price_from none none ad quantity = ad_price ad

  unfoldable pub resolve_unit_price : Json → Option BazosAd → A → A
  unfolding given_or get
  resolve_unit_price line ad quantity =
      price_from (to_positive (given_or (get (some line) "unitPrice") (get (some line) "price")))
        (to_positive (given_total line)) ad quantity

  abbrev ad_title : Option BazosAd → List ℕ
  ad_title none = codes "Bazos item"
  ad_title (some ad) = if ad.title == "" then codes "Bazos item" else codes ad.title

  abbrev pub shown_or : Option Json → List ℕ → List ℕ
  shown_or none ds = ds
  shown_or (some v) ds = if is_truthy (some v) then shown v else ds

  unfoldable pub central_item : Json → Option BazosAd → List ℕ → List ℕ → CentralOrderItem A
  unfolding to_positive_number resolve_unit_price get given_or first_truthy is_truthy shown
  central_item line ad product warehouse =
      let quantity = to_positive_number (get (some line) "quantity") env.one_amount in
      let unit_price = resolve_unit_price line ad quantity in
      record {
        product_id = product;
        warehouse_id = warehouse;
        sku = get (some line) "sku";
        title =
            shown_or (first_truthy (some line) (("title" ∷ []) ∷ ("name" ∷ []) ∷ [])) (ad_title ad);
        quantity = quantity;
        unit_price = unit_price;
        total_price = to_positive_number (given_total line) (env.times_amount unit_price quantity);
      }

  abbrev pub with_warehouse : Json → Option BazosAd → List ℕ → List ℕ → LineMapping A
  with_warehouse line ad product [] = unmapped no_warehouse
  with_warehouse line ad product (c ∷ cs) = mapped (central_item line ad product (c ∷ cs))

  abbrev pub with_product_id : Json → Option BazosAd → List ℕ → LineMapping A
  with_product_id line ad [] = unmapped no_product
  with_product_id line ad (c ∷ cs) = with_warehouse line ad (c ∷ cs) (resolve_warehouse_id line ad)

  -- The product that the line itself names.
  unfoldable pub own_product : Json → List ℕ
  unfolding clean_identifier first_truthy
  own_product line =
      clean_identifier
        (first_truthy (some line) (("catalogProductId" ∷ []) ∷ ("productId" ∷ []) ∷ []))

  abbrev pub of_ad : Json → BazosAd → Option ℕ → LineMapping A
  of_ad line ad none = unmapped no_product_of_ad
  of_ad line ad (some id) = with_product_id line (some ad) (trim (env.orders.show_id id))

  abbrev pub of_found : Json → Option BazosAd → LineMapping A
  of_found line none =
      if has_line_identifier (some line)
      then unmapped unknown_ad
      else with_product_id line none (own_product line)
  of_found line (some ad) = of_ad line ad ad.product_id

  -- The exception of the query goes on to the caller.
  abbrev pub of_query : Json → Outcome (Option BazosAd) → LineMapping A
  of_query line (ok found) = of_found line found
  of_query line (err x) = failed x

  unfoldable pub map_line : ℕ → Store → Json → LineMapping A
  unfolding find_bazos_ad_for_line has_line_identifier resolve_warehouse_id central_item own_product
  map_line account_id s line =
      of_query line (find_bazos_ad_for_line env.orders account_id (some line) s)

  abbrev pub push_item : LineMapping A → ItemMapping A → ItemMapping A
  push_item (unmapped r) rest = unavailable r
  push_item (failed x) rest = thrown x
  push_item (mapped i) (unavailable r) = unavailable r
  push_item (mapped i) (thrown x) = thrown x
  push_item (mapped i) (available is) = available (i ∷ is)

  unfoldable pub map_lines : ℕ → Store → List Json → ItemMapping A
  unfolding map_line
  map_lines account_id s [] = available []
  map_lines account_id s (line ∷ lines) =
      push_item (map_line account_id s line) (map_lines account_id s lines)

  abbrev pub not_empty : ItemMapping A → ItemMapping A
  not_empty (available []) = unavailable no_items
  not_empty m = m

  abbrev pub from_lines : ℕ → Store → List Json → ItemMapping A
  from_lines account_id s [] = unavailable no_lines
  from_lines account_id s (line ∷ lines) = not_empty (map_lines account_id s (line ∷ lines))

  unfoldable pub build_central_order_items : Option Json → ℕ → Store → ItemMapping A
  unfolding extract_source_lines map_lines
  build_central_order_items data_ account_id s =
      from_lines account_id s (extract_source_lines data_)
