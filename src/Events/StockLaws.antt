-- ===== src/Events/StockLaws.antt =====
-- A stock event reaches every ad of its product, and a second delivery of it changes nothing.
use bazos.Base.{
  ℕ, ◌≡◌, refl, sym, ap, ◌∙◌, subst, Option, some, List, Bool, true, ◌&&◌, ◌||◌, not, All, inl, inr,
  Bool-cases, arith, ◌==◌, nat_eq, codes_eq, ==_refl, if◌then◌else◌, select, All-perm, All-weaken,
  All-both, select-All, All-of,
}
use bazos.Json.{Json}
use bazos.Store.{
  Store, BazosAd, return, ◌>>=◌, update, StockEventType, stock_out, PublishStatus,
  publish_status_eq, applied, stock_event_type_eq, sync_status_eq,
}
use bazos.Store.Runs.{Ends, join-Ends}
use bazos.Store.Loops.{for_each, catch}
use bazos.Store.Held.{by_key_self}
use bazos.Events.{EventEnv, ads_of, is_of_product}
use bazos.Events.Stock.{
  AdOutcome, stock_event_id, is_projected, project_stock, apply_to_ad, apply_warehouse_stock_event,
  build_event_id,
}
use bazos.Events.Sweep.{IsSweep, IsOrder, sweep-Runs, skipped, product-All}

module _ (now : ℕ) (event_id : List ℕ) (type : StockEventType) (target : ℕ) where
  project_stock-id : (a x : BazosAd) → (project_stock now event_id type target a x).id ≡ x.id
  unfolding project_stock
  project_stock-id a x = ground arith

  project_stock-is_projected :
      (a x : BazosAd)
      → is_projected event_id target (project_stock now event_id type target a x) ≡ true
  unfolding project_stock
  project_stock-is_projected a x = elim (Bool-cases (type == stock_out || target == 0)) [
    | inl e ↦ rw (e, ==_refl event_id, ==_refl target, ==_refl applied) refl
    | inr e ↦ rw (e, ==_refl event_id, ==_refl target, ==_refl applied) refl
  ]

  apply_to_ad-IsSweep :
      IsSweep
        (apply_to_ad now event_id type target)
        (is_projected event_id target)
        (project_stock now event_id type target)
  unfolding apply_to_ad ◌>>=◌ update catch return
  apply_to_ad-IsSweep = record {
    keeps = project_stock-id;
    ends = λ a s (r, found). elim (Bool-cases (is_projected event_id target a)) [
      | inl e ↦ rw e (_, refl)
      | inr e ↦ rw (e, found) (_, refl)
    ];
    store = λ a s (r, found). elim (Bool-cases (is_projected event_id target a)) [
      | inl e ↦ rw e refl
      | inr e ↦ rw (e, found) refl
    ];
  }

module _ (env : EventEnv) (payload : Option Json) (product_id : List ℕ) (target : ℕ)
    (type : StockEventType) (p : ℕ) (s : Store) where
  abbrev event_id : List ℕ
  event_id = stock_event_id env payload type product_id target

  abbrev sweep_store : Store
  sweep_store =
      (for_each (apply_to_ad env.now event_id type target)
        (env.by_updated_at (select (is_of_product p) s.ads)) s).1

  applied-Ends :
      IsOrder env.by_updated_at
      → env.read_id product_id ≡ some p
      → (os : List AdOutcome) × Ends
          (apply_warehouse_stock_event env payload product_id target type)
          s
          os
          sweep_store
  unfolding apply_warehouse_stock_event
  applied-Ends is_order known =
      let sweep = apply_to_ad-IsSweep env.now event_id type target in
      let (os, ends, kept) = sweep-Runs sweep env.by_updated_at is_order p s in
      (
        os,
        join-Ends (ads_of env (env.read_id product_id)) _
            (record { value = rw known refl; store = rw known refl })
            (record { value = ends; store = refl }),
      )

  ads-projected :
      IsOrder env.by_updated_at
      → All (λ x. is_of_product p x ≡ true → is_projected event_id target x ≡ true) sweep_store.ads
  ads-projected is_order =
      product-All (apply_to_ad-IsSweep env.now event_id type target) env.by_updated_at is_order p s
        (is_projected event_id target) (project_stock-is_projected env.now event_id type target)
        (All-of (λ x of_product e. e) s.ads)

-- A stock event for a product ends without an exception. Afterwards every ad of that product has
-- the event recorded as applied, with the quantity of the event. Conditions: the database takes
-- the product of the event for an identifier and lists each row once.
pub apply_warehouse_stock_event-projects :
    (env : EventEnv) (payload : Option Json) (product_id : List ℕ) (target : ℕ)
    (type : StockEventType) (p : ℕ) (s : Store)
    → IsOrder env.by_updated_at
    → env.read_id product_id ≡ some p
    → (t : Store) × (os : List AdOutcome) × Ends
        (apply_warehouse_stock_event env payload product_id target type)
        s
        os
        t
      × All
          (λ x.
            is_of_product p x ≡ true
            → is_projected (stock_event_id env payload type product_id target) target x ≡ true)
          t.ads
apply_warehouse_stock_event-projects env payload product_id target type p s is_order known =
    let (os, ends) = applied-Ends env payload product_id target type p s is_order known in
    (_, os, ends, ads-projected env payload product_id target type p s is_order)

-- A second delivery of a stock event, at any later or earlier time, leaves the whole store as the
-- first delivery left it; provided that the database takes the product of the event for an
-- identifier and lists each row once.
pub apply_warehouse_stock_event-twice :
    (env : EventEnv) (later : ℕ) (payload : Option Json) (product_id : List ℕ) (target : ℕ)
    (type : StockEventType) (p : ℕ) (s : Store)
    → IsOrder env.by_updated_at
    → env.read_id product_id ≡ some p
    → (apply_warehouse_stock_event
        (record env { now = later })
        payload
        product_id
        target
        type
        (apply_warehouse_stock_event env payload product_id target type s).1).1
      ≡ (apply_warehouse_stock_event env payload product_id target type s).1
unfolding stock_event_id build_event_id
apply_warehouse_stock_event-twice env later payload product_id target type p s is_order known =
    let (os, first) = applied-Ends env payload product_id target type p s is_order known in
    let t = sweep_store env payload product_id target type p s in
    let (_, second) =
      applied-Ends (record env { now = later }) payload product_id target type p t is_order known in
    ap
      (λ u.
        (apply_warehouse_stock_event (record env { now = later }) payload product_id target type
          u).1)
      first.store
    ∙ second.store
    ∙ skipped
        (apply_to_ad-IsSweep later (event_id env payload product_id target type p s) type target) t
        _
        (All-perm _ (is_order _) (
          select-All (is_of_product p) _ t.ads (
            All-weaken _ (λ x (here, projected) of_product. (here, projected of_product)) t.ads
              (All-both _ _ t.ads (by_key_self (λ (a : BazosAd). a.id) t.ads)
                (ads-projected env payload product_id target type p s is_order)))))
    ∙ sym first.store

-- What a stock event makes of an ad: its quantity, and off sale where there is nothing to sell.
abbrev pub shows : StockEventType → ℕ → BazosAd → Bool
shows type target x =
    x.stock_quantity == target
    && (if type == stock_out || target == 0
        then not x.is_active && x.publish_status == PublishStatus.deleted
        else x.is_active)

project_stock-shows :
    (now : ℕ) (event_id : List ℕ) (type : StockEventType) (target : ℕ) (a x : BazosAd)
    → shows type target (project_stock now event_id type target a x) ≡ true
unfolding project_stock
project_stock-shows now event_id type target a x =
    elim (Bool-cases (type == stock_out || target == 0)) [
      | inl e ↦ rw (e, ==_refl target, ==_refl PublishStatus.deleted) refl
      | inr e ↦ rw (e, ==_refl target) refl
    ]

-- After a stock event every ad of its product has the quantity of the event, and is inactive and
-- deleted if there is no stock, or else active. Conditions: each ad that had the event recorded
-- before is such an ad already, the database takes the product of the event for an identifier, and
-- it lists each row once.
pub apply_warehouse_stock_event-shows :
    (env : EventEnv) (payload : Option Json) (product_id : List ℕ) (target : ℕ)
    (type : StockEventType) (p : ℕ) (s : Store)
    → IsOrder env.by_updated_at
    → env.read_id product_id ≡ some p
    → All
        (λ x.
          is_of_product p x ≡ true
          → is_projected (stock_event_id env payload type product_id target) target x ≡ true
          → shows type target x ≡ true)
        s.ads
    → All
        (λ x. is_of_product p x ≡ true → shows type target x ≡ true)
        (apply_warehouse_stock_event env payload product_id target type s).1.ads
apply_warehouse_stock_event-shows env payload product_id target type p s is_order known settled =
    let (os, ends) = applied-Ends env payload product_id target type p s is_order known in
    let id = stock_event_id env payload type product_id target in
    subst (λ t. All (λ x. is_of_product p x ≡ true → shows type target x ≡ true) t.ads)
      (sym ends.store)
      (product-All (apply_to_ad-IsSweep env.now id type target) env.by_updated_at is_order p s
        (shows type target) (project_stock-shows env.now id type target) settled)
