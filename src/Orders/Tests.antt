-- ===== src/Orders/Tests.antt =====
-- The theorems on orders at a concrete store: two accounts with an order each.
use bazos.Base.{
  ℕ, suc, ◌*◌, if◌then◌else◌, ◌==◌, nat_eq, ℤ, pos, ◌≢◌, ◌≤◌, ◌≡◌, refl, Option, none, some, List,
  [], ◌∷◌, true, false, length, All, ◌⊎◌, codes, codes_eq, String, ℕ_discrete, String-discrete,
  Optional-discrete, Codes-discrete,
}
use bazos.Json.{Json, obj, arr, item, nil, null, number, field, text, end, get}
use bazos.Store.{Store, BazosAccount, BazosOrder, BazosAd, ok, err, refused}
use bazos.Fixtures.{shop, bicycle}
use bazos.Orders.{OrdersEnv}
use bazos.Orders.Query.{clean_identifier}
use bazos.Orders.Read.{
  OrdersReadActor, OrderRead, find_visible_for_actor, find_one_visible_for_actor, actor_user_id,
  has_order_read_admin_role,
}
use bazos.Orders.Visible.{IsOwn, find_visible_for_actor-IsOwn}
use bazos.Orders.Items.{ItemsEnv, CentralOrderItem, build_central_order_items}
use bazos.Orders.SourceLines.{extract_source_lines}
use bazos.Orders.Mapped.{AreItemsOf, build_central_order_items-AreItemsOf}
use bazos.Orders.Replay.{ReplayEnv, replayed_orders, get_order_affinity_replay_candidates}
use bazos.Orders.Replayed.{IsReplayed, IsTold, get_order_affinity_replay_candidates-IsReplayed}
use bazos.Orders.Lines.{codes_of, other_id, find_bazos_ad_for_line, find_bazos_ad_for_line-number}

abbrev read_id : List ℕ → Option ℕ
read_id [] = none
read_id cs = some 61

abbrev central_down : OrdersEnv
central_down = record {
  read_id = read_id;
  show_id = λ k. k ∷ [];
  read_whole = λ cs. none;
  get_order_lifecycle_status = λ id. err refused;
}

abbrev eva : OrdersReadActor
eva = record { id = none; sub = some "eva"; user_id = none; roles = some ("bazos:seller" ∷ []) }

abbrev account_of : ℕ → Option String → BazosAccount
account_of k user = record { id = k; user_id = user; email = []; is_active = true; created_at = 1 }

abbrev order_of : ℕ → ℕ → BazosOrder
order_of k account = record {
  id = k;
  account_id = account;
  bazos_order_id = none;
  order_id = none;
  forwarded = false;
  status = codes "pending";
  payment_status = codes "unknown";
  created_at = k;
}

abbrev with_orders : Store
with_orders = record shop {
  accounts = account_of 9 (some "eva") ∷ account_of 10 (some "adam") ∷ [];
  orders = order_of 60 10 ∷ order_of 61 9 ∷ [];
}

abbrev shown_order : OrderRead
shown_order = record { order = order_of 61 9; central_order = none }

find_visible_for_actor-IsOwn_example :
    (rs : List OrderRead) × (find_visible_for_actor central_down eva none with_orders
      ≡ (ok rs, with_orders))
    × (length rs ≤ 100)
    × All (IsOwn (actor_user_id eva) with_orders) rs
unfolding has_order_read_admin_role String-discrete
find_visible_for_actor-IsOwn_example =
    find_visible_for_actor-IsOwn central_down eva none with_orders refl

seen :
    (find_one_visible_for_actor central_down (codes "61") eva none with_orders).0
    ≡ ok (some shown_order)
unfolding find_one_visible_for_actor String-discrete ℕ_discrete Codes-discrete
seen = refl

abbrev sold : BazosAd
sold = record bicycle { bazos_ad_id = some "12345" }

abbrev line : Option Json
line = some (obj (field "adId" (text "12345") end))

named :
    find_bazos_ad_for_line central_down 9 line (record shop { ads = sold ∷ [] }) ≡ ok (some sold)
unfolding find_bazos_ad_for_line ℕ_discrete String-discrete Optional-discrete Codes-discrete
named = refl

five_characters : length (clean_identifier (get line "adId")) ≡ 5
unfolding clean_identifier get String-discrete ℕ_discrete
five_characters = refl

find_bazos_ad_for_line-number_example :
    (sold.account_id ≡ 9)
    × ((codes_of sold.bazos_ad_id ≡ some (clean_identifier (get line "adId")))
        ⊎ (codes_of sold.bazos_ad_id ≡ some (other_id line)))
find_bazos_ad_for_line-number_example =
    find_bazos_ad_for_line-number central_down 9 line (record shop { ads = sold ∷ [] }) sold
      (λ e. cc (e, five_characters)) named

-- One line names an ad and the other one a product. Amounts are kept as whole numbers.
abbrev whole_amount : Json → Option ℕ
whole_amount (number n) = whole_part n.floor
  where
    whole_part : ℤ → Option ℕ
    whole_part (pos (suc k)) = some (suc k)
    whole_part z = none
whole_amount v = none

abbrev items_env : ItemsEnv ℕ
items_env = record {
  orders = central_down;
  read_positive = whole_amount;
  zero_amount = 0;
  one_amount = 1;
  times_amount = λ a b. a * b;
  divide_amount = λ a b. a;
  price_of = λ k. k;
  check_document =
      λ ad. some (obj (field "warehouseStock" (obj (field "warehouseId" (text "w1") end)) end));
}

abbrev other_line : Json
other_line = obj (
    field "productId" (text " p2 ") (
      field "price" (number (record { floor = pos 5; is_whole = true; shown = codes "5" }))
        (field "warehouseId" (text "w2") end)))

abbrev ordered : Option Json
ordered = some (
    obj (
      field "items"
        (arr (item (obj (field "adId" (text "12345") end)) (item null (item other_line nil)))) end))

abbrev item_of_ad : CentralOrderItem ℕ
item_of_ad = record {
  product_id = 70 ∷ [];
  warehouse_id = codes "w1";
  sku = none;
  title = codes sold.title;
  quantity = 1;
  unit_price = sold.price;
  total_price = sold.price;
}

abbrev item_of_product : CentralOrderItem ℕ
item_of_product = record {
  product_id = codes "p2";
  warehouse_id = codes "w2";
  sku = none;
  title = codes "Bazos item";
  quantity = 1;
  unit_price = 5;
  total_price = 5;
}

abbrev with_sold : Store
with_sold = record shop { ads = sold ∷ [] }

build_central_order_items-AreItemsOf_example :
    (item_of_ad ∷ item_of_product ∷ [] ≢ [])
    × AreItemsOf items_env 9 with_sold
        (extract_source_lines ordered)
        (item_of_ad ∷ item_of_product ∷ [])
unfolding build_central_order_items ℕ_discrete String-discrete Optional-discrete Codes-discrete
build_central_order_items-AreItemsOf_example =
    build_central_order_items-AreItemsOf items_env 9 with_sold ordered
      (item_of_ad ∷ item_of_product ∷ []) refl

abbrev product_line : String → Json
product_line id = obj (
    field "catalogProductId" (text id) (
      field "quantity" (number (record { floor = pos 2; is_whole = true; shown = codes "2" })) end))

abbrev replay_env : ReplayEnv ℕ
replay_env = record {
  items = items_env;
  item_snapshots = λ o.
      if o.id == 60
      then some (arr (item (product_line "p1") (item (product_line "p2") nil)))
      else some (arr (item (product_line "p1") (item (product_line "p1") nil)));
  paid_at = λ o. none;
  currency = λ o. codes "CZK";
  digest = λ cs. cs;
  read_date = λ cs. none;
}

abbrev paid : ℕ → BazosOrder
paid k = record (order_of k 9) { status = codes "confirmed"; payment_status = codes "paid" }

abbrev with_paid : Store
with_paid = record with_orders { orders = order_of 59 9 ∷ paid 60 ∷ paid 61 ∷ [] }

get_order_affinity_replay_candidates-IsReplayed_example :
    All
      (IsReplayed replay_env none with_paid)
      (get_order_affinity_replay_candidates replay_env none with_paid).events
    × All
        (IsTold replay_env (get_order_affinity_replay_candidates replay_env none with_paid).events)
        (replayed_orders replay_env none with_paid)
    × (length (replayed_orders replay_env none with_paid) ≤ 100)
get_order_affinity_replay_candidates-IsReplayed_example =
    get_order_affinity_replay_candidates-IsReplayed replay_env none with_paid

-- One of the two paid orders has two products.
one_told :
    ((get_order_affinity_replay_candidates replay_env none with_paid).count ≡ 1)
    × ((get_order_affinity_replay_candidates replay_env none with_paid).skipped_records ≡ 1)
unfolding get_order_affinity_replay_candidates ℕ_discrete String-discrete Codes-discrete
one_told = (refl, refl)
