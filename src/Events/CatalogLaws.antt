-- ===== src/Events/CatalogLaws.antt =====
-- An event after which a product is not to be offered takes every ad of the product off sale, once.
use bazos.Base.{
  ℕ, ◌≡◌, refl, sym, ap, ◌∙◌, Option, none, some, List, Bool, true, not, ◌&&◌, All, inl, inr,
  Bool-cases, ◌==◌, nat_eq, option_eq, codes_eq, ==_refl, select, All-perm, All-weaken, All-both,
  select-All, All-of,
}
use bazos.Json.{Json}
use bazos.Store.{
  Store, BazosAd, ReviewState, return, ◌>>=◌, update, UnavailableReason, PublishStatus,
  publish_status_eq, review_state_eq,
}
use bazos.Store.Runs.{Ends, join-Ends}
use bazos.Store.Loops.{for_each}
use bazos.Store.Held.{by_key_self}
use bazos.Events.{EventEnv, ads_of, is_of_product}
use bazos.Events.Stock.{AdOutcome}
use bazos.Events.Catalog.{
  catalog_event_id, is_recorded, take_off_sale, disable_one, apply_non_offerable_catalog_event,
}
use bazos.Events.Sweep.{IsSweep, IsOrder, sweep-Runs, product-All, skipped}

disable_one-IsSweep :
    (now : ℕ) (event_id type : List ℕ) (reason : UnavailableReason)
    → IsSweep
        (disable_one now event_id type reason)
        (is_recorded event_id)
        (take_off_sale now event_id type reason)
unfolding disable_one ◌>>=◌ update return
disable_one-IsSweep now event_id type reason = record {
  keeps = λ a x. refl;
  ends = λ a s (r, found). elim (Bool-cases (is_recorded event_id a)) [
    | inl e ↦ rw e (_, refl)
    | inr e ↦ rw (e, found) (_, refl)
  ];
  store = λ a s (r, found). elim (Bool-cases (is_recorded event_id a)) [
    | inl e ↦ rw e refl
    | inr e ↦ rw (e, found) refl
  ];
}

abbrev pub is_off_sale : BazosAd → Bool
is_off_sale x =
    (not x.is_active && x.publish_status == PublishStatus.deleted)
    && (x.stock_quantity == 0 && x.challenge_state == none)

module _ (env : EventEnv) (payload : Option Json) (type product_id : List ℕ)
    (reason : UnavailableReason) (p : ℕ) (s : Store) where
  abbrev sweep_store : Store
  sweep_store =
      (for_each
        (disable_one env.now (catalog_event_id env payload type product_id reason) type reason)
        (env.by_updated_at (select (is_of_product p) s.ads)) s).1

  disabled-Ends :
      IsOrder env.by_updated_at
      → env.read_id product_id ≡ some p
      → (os : List AdOutcome) × Ends
          (apply_non_offerable_catalog_event env payload type product_id reason)
          s
          os
          sweep_store
  unfolding apply_non_offerable_catalog_event
  disabled-Ends is_order known =
      let (os, ends, kept) =
        sweep-Runs (disable_one-IsSweep env.now _ type reason) env.by_updated_at is_order p s in
      (
        os,
        join-Ends (ads_of env (env.read_id product_id)) _
            (record { value = rw known refl; store = rw known refl })
            (record { value = ends; store = refl }),
      )

  ads-recorded :
      IsOrder env.by_updated_at
      → All
          (λ x.
            is_of_product p x ≡ true
            → is_recorded (catalog_event_id env payload type product_id reason) x ≡ true)
          sweep_store.ads
  ads-recorded is_order =
      product-All (disable_one-IsSweep env.now _ type reason) env.by_updated_at is_order p s
        (is_recorded _) (λ a x. ==_refl (catalog_event_id env payload type product_id reason))
        (All-of (λ x of_product e. e) s.ads)

-- An event after which a product is not to be offered ends without an exception. Afterwards every
-- ad of the product has the event recorded, and is inactive and deleted, without stock and without
-- a challenge. Conditions: each ad that had the event recorded before is such an ad already, the
-- database takes the product of the event for an identifier, and it lists each row once.
pub apply_non_offerable_catalog_event-disables :
    (env : EventEnv) (payload : Option Json) (type product_id : List ℕ) (reason : UnavailableReason)
    (p : ℕ) (s : Store)
    → IsOrder env.by_updated_at
    → env.read_id product_id ≡ some p
    → All
        (λ x.
          is_of_product p x ≡ true
          → is_recorded (catalog_event_id env payload type product_id reason) x ≡ true
          → is_off_sale x ≡ true)
        s.ads
    → (t : Store) × (os : List AdOutcome) × Ends
        (apply_non_offerable_catalog_event env payload type product_id reason)
        s
        os
        t
      × All
          (λ x.
            is_of_product p x ≡ true
            → is_recorded (catalog_event_id env payload type product_id reason) x ≡ true)
          t.ads
      × All (λ x. is_of_product p x ≡ true → is_off_sale x ≡ true) t.ads
apply_non_offerable_catalog_event-disables env payload type product_id reason p s is_order known
      settled =
    let (os, ends) = disabled-Ends env payload type product_id reason p s is_order known in
    (
      _,
      os,
      ends,
      ads-recorded env payload type product_id reason p s is_order,
      product-All (disable_one-IsSweep env.now _ type reason) env.by_updated_at is_order p s
          is_off_sale
          (λ a x.
            rw
              (
                ==_refl PublishStatus.deleted,
                ==_refl {A = ℕ} 0,
                ==_refl {A = Option ReviewState} none,
              )
              refl)
          settled,
    )

-- A second delivery of an event after which a product is not to be offered, at any later or
-- earlier time, leaves the whole store as the first delivery left it; provided that the database
-- takes the product of the event for an identifier and lists each row once.
apply_non_offerable_catalog_event-twice :
    (env : EventEnv) (later : ℕ) (payload : Option Json) (type product_id : List ℕ)
    (reason : UnavailableReason) (p : ℕ) (s : Store)
    → IsOrder env.by_updated_at
    → env.read_id product_id ≡ some p
    → (apply_non_offerable_catalog_event
        (record env { now = later })
        payload
        type
        product_id
        reason
        (apply_non_offerable_catalog_event env payload type product_id reason s).1).1
      ≡ (apply_non_offerable_catalog_event env payload type product_id reason s).1
unfolding catalog_event_id
apply_non_offerable_catalog_event-twice env later payload type product_id reason p s is_order
      known =
    let (os, first) = disabled-Ends env payload type product_id reason p s is_order known in
    let t = sweep_store env payload type product_id reason p s in
    let (_, second) =
      disabled-Ends (record env { now = later }) payload type product_id reason p t is_order
        known in
    ap
      (λ u.
        (apply_non_offerable_catalog_event (record env { now = later }) payload type product_id
          reason u).1)
      first.store
    ∙ second.store
    ∙ skipped
        (disable_one-IsSweep later (catalog_event_id env payload type product_id reason) type
          reason)
        t _
        (All-perm _ (is_order _) (
          select-All (is_of_product p) _ t.ads (
            All-weaken _ (λ x (here, recorded) of_product. (here, recorded of_product)) t.ads
              (All-both _ _ t.ads (by_key_self (λ (a : BazosAd). a.id) t.ads)
                (ads-recorded env payload type product_id reason p s is_order)))))
    ∙ sym first.store
