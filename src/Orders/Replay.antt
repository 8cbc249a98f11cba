-- ===== src/Orders/Replay.antt =====
-- `getOrderAffinityReplayCandidates`: which past orders are told to marketing, and what of them.
use bazos.Base.{
  ℕ, Option, none, some, List, [], ◌∷◌, map, take, length, Bool, true, ◌&&◌, any, select, trim,
  sort_by, ltb, leb, ◌==◌, codes_eq, codes, if◌then◌else◌, ◌-◌,
}
use bazos.Json.{Json, Items, arr, nil, item, get, first_truthy}
use bazos.Store.{Store, BazosOrder}
use bazos.Orders.Query.{clean_identifier, parse_limit}
use bazos.Orders.Items.{ItemsEnv, to_positive}

pub record ReplayItemSnapshot (A : Type 0) : Type 0 where
  pub catalog_product_id : List ℕ
  pub sku : List ℕ
  pub quantity : A
  pub unit_price : Option A
  pub total_price : Option A
  pub currency : List ℕ

-- `item_snapshots`, `paid_at` and `currency` are columns of an order; `digest` is the text of its
-- SHA-256, and `read_date` the time that a text denotes, if it denotes one.
pub record ReplayEnv (A : Type 0) : Type 0 where
  pub items : ItemsEnv A
  pub item_snapshots : BazosOrder → Option Json
  pub paid_at : BazosOrder → Option ℕ
  pub currency : BazosOrder → List ℕ
  pub digest : List ℕ → List ℕ
  pub read_date : List ℕ → Option ℕ

-- The event and its payload, without the constant fields.
pub record AffinityEvent (A : Type 0) : Type 0 where
  pub safe_order_id : List ℕ
  pub occurred_at : ℕ
  pub currency : List ℕ
  pub items : List (ReplayItemSnapshot A)

-- The filters, the cursors and the constant fields of the answer are left out.
pub record ReplayCandidates (A : Type 0) : Type 0 where
  pub count : ℕ
  pub events : List (AffinityEvent A)
  pub skipped_records : ℕ

-- The texts that differ, as a `Set` keeps them.
unfoldable pub distinct_codes : List (List ℕ) → List (List ℕ)
unfolding any
distinct_codes [] = []
distinct_codes (x ∷ xs) =
    let rest = distinct_codes xs in if any (λ y. y == x) rest then rest else x ∷ rest

abbrev replay_payment_statuses : List (List ℕ)
replay_payment_statuses = codes "paid" ∷ codes "completed" ∷ codes "confirmed" ∷ []

abbrev replay_order_statuses : List (List ℕ)
replay_order_statuses =
    codes "paid"
    ∷ codes "confirmed"
    ∷ codes "processing"
    ∷ codes "shipped"
    ∷ codes "delivered"
    ∷ codes "completed"
    ∷ codes "fulfilled"
    ∷ []

abbrev pub is_from : Option ℕ → ℕ → Bool
is_from none at = true
is_from (some t) at = leb t at

abbrev pub is_to : Option ℕ → ℕ → Bool
is_to none at = true
is_to (some t) at = leb at t

unfoldable pub is_replayed : Option ℕ → Option ℕ → BazosOrder → Bool
unfolding any
is_replayed from to o =
    any (λ p. p == o.payment_status) replay_payment_statuses
    && (any (λ p. p == o.status) replay_order_statuses
        && (is_from from o.created_at && is_to to o.created_at))

abbrev pub is_older : BazosOrder → BazosOrder → Bool
is_older a b = ltb a.created_at b.created_at

module _ {A : Type 0} (env : ReplayEnv A) where
  unfoldable pub iso_or_null : Option Json → Option ℕ
  unfolding clean_identifier
  iso_or_null value = date_of (clean_identifier value)
    where
      date_of : List ℕ → Option ℕ
      date_of [] = none
      date_of (c ∷ cs) = env.read_date (c ∷ cs)

  abbrev pub snapshot_with :
      Option Json → List ℕ → Option A → List (ReplayItemSnapshot A) → List (ReplayItemSnapshot A)
  snapshot_with raw [] quantity rest = rest
  snapshot_with raw (c ∷ cs) none rest = rest
  snapshot_with raw (c ∷ cs) (some quantity) rest =
      record {
        catalog_product_id = c ∷ cs;
        sku = clean_identifier (get raw "sku");
        quantity = quantity;
        unit_price = to_positive env.items (get raw "unitPrice");
        total_price = to_positive env.items (get raw "totalPrice");
        currency = clean_identifier (get raw "currency");
      }
      ∷ rest

  unfoldable pub snapshots_of : Items → List (ReplayItemSnapshot A)
  unfolding clean_identifier first_truthy get
  snapshots_of nil = []
  snapshots_of (item raw raws) =
      snapshot_with (some raw)
        (clean_identifier
          (first_truthy (some raw) (("catalogProductId" ∷ []) ∷ ("productId" ∷ []) ∷ [])))
        (to_positive env.items (get (some raw) "quantity")) (snapshots_of raws)

  unfoldable pub replay_snapshots : Option Json → List (ReplayItemSnapshot A)
  unfolding snapshots_of
  replay_snapshots (some (arr raws)) = snapshots_of raws
  replay_snapshots value = []

  unfoldable pub safe_replay_order_id : BazosOrder → List ℕ
  safe_replay_order_id o = take 32 (env.digest (env.items.orders.show_id o.id))

  abbrev or_created : Option ℕ → ℕ → ℕ
  or_created none at = at
  or_created (some t) at = t

  unfoldable pub order_occurred_at : BazosOrder → ℕ
  order_occurred_at o = or_created (env.paid_at o) o.created_at

  abbrev pub product_ids : List (ReplayItemSnapshot A) → List (List ℕ)
  product_ids snapshots = map (λ (i : ReplayItemSnapshot A). i.catalog_product_id) snapshots

  unfoldable pub to_order_affinity_replay_event : BazosOrder → Option (AffinityEvent A)
  unfolding replay_snapshots distinct_codes safe_replay_order_id order_occurred_at
  to_order_affinity_replay_event o =
      let snapshots = replay_snapshots (env.item_snapshots o) in
      if ltb (length (distinct_codes (product_ids snapshots))) 2
      then none
      else some (record {
        safe_order_id = safe_replay_order_id o;
        occurred_at = order_occurred_at o;
        currency = trim (env.currency o);
        items = snapshots;
      })

  abbrev pub push_event : Option (AffinityEvent A) → List (AffinityEvent A) → List (AffinityEvent A)
  push_event none es = es
  push_event (some e) es = e ∷ es

  unfoldable pub events_of : List BazosOrder → List (AffinityEvent A)
  unfolding to_order_affinity_replay_event
  events_of [] = []
  events_of (o ∷ os) = push_event (to_order_affinity_replay_event o) (events_of os)

  unfoldable pub replayed_orders : Option Json → Store → List BazosOrder
  unfolding parse_limit iso_or_null get is_replayed select sort_by
  replayed_orders query s = take (parse_limit env.items.orders (get query "limit")) (
      sort_by is_older (
        select (is_replayed (iso_or_null (get query "from")) (iso_or_null (get query "to")))
          s.orders))

  unfoldable pub get_order_affinity_replay_candidates : Option Json → Store → ReplayCandidates A
  unfolding replayed_orders events_of
  get_order_affinity_replay_candidates query s =
      let orders = replayed_orders query s in
      let events = events_of orders in
      record {
        count = length events;
        events = events;
        skipped_records = length orders - length events;
      }
