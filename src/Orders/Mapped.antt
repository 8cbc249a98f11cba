-- ===== src/Orders/Mapped.antt =====
-- What the items of an order say, when `buildCentralOrderItems` makes them.
use bazos.Base.{
  ℕ, ◌≡◌, ◌≢◌, refl, sym, ap, ◌∙◌, subst, Option, none, some, List, [], ◌∷◌, false, &&-eq-true,
  find_first-test, nat_eq, inl, inr, Bool-cases, ==-iff, trim,
}
use bazos.Json.{Json}
use bazos.Store.{Store, BazosAd, Outcome, ok, err}
use bazos.Orders.Lines.{find_bazos_ad_for_line, find_bazos_ad_for_line-first}
use bazos.Orders.Items.{
  ItemsEnv, CentralOrderItem, MissingReason, unknown_ad, ItemMapping, available, unavailable,
  LineMapping, mapped, unmapped, resolve_warehouse_id, own_product, central_item, with_warehouse,
  with_product_id, of_ad, of_found, of_query, failed, thrown, map_line, map_lines, push_item,
  not_empty, from_lines, build_central_order_items,
}
use bazos.Orders.SourceLines.{has_line_identifier, extract_source_lines}

-- Where the product of an item is from: an ad of the account that the line names, or the line itself,
-- which then names no ad.
pub data IsSource {A : Type 0} (env : ItemsEnv A) (account_id : ℕ) (s : Store) (line : Json)
    : Option BazosAd → List ℕ → Type 0 where
  from_ad :
      {product : List ℕ} (ad : BazosAd) (id : ℕ)
      → find_bazos_ad_for_line env.orders account_id (some line) s ≡ ok (some ad)
      → ad.account_id ≡ account_id
      → ad.product_id ≡ some id
      → product ≡ trim (env.orders.show_id id)
      → IsSource env account_id s line (some ad) product
  from_line :
      {product : List ℕ}
      → has_line_identifier (some line) ≡ false
      → product ≡ own_product env line
      → IsSource env account_id s line none product

-- The item `i` is made of a line: it names a product and a warehouse.
pub record IsItemOf {A : Type 0} (env : ItemsEnv A) (account_id : ℕ) (s : Store) (line : Json)
    (i : CentralOrderItem A) : Type 0 where
  pub ad : Option BazosAd
  pub product_given : i.product_id ≢ []
  pub source : IsSource env account_id s line ad i.product_id
  pub warehouse_given : i.warehouse_id ≢ []
  pub warehouse : i.warehouse_id ≡ resolve_warehouse_id env line ad

-- The items are those of the lines, one for each, in their order.
pub data AreItemsOf {A : Type 0} (env : ItemsEnv A) (account_id : ℕ) (s : Store)
    : List Json → List (CentralOrderItem A) → Type 0 where
  no_item : AreItemsOf env account_id s [] []
  next_item :
      {line : Json} {i : CentralOrderItem A} {lines : List Json} {is : List (CentralOrderItem A)}
      → IsItemOf env account_id s line i
      → AreItemsOf env account_id s lines is
      → AreItemsOf env account_id s (line ∷ lines) (i ∷ is)

module _ {A : Type 0} (env : ItemsEnv A) (account_id : ℕ) (s : Store) (line : Json) where
  -- What an item that is made has of the product and the warehouse that it is made with.
  abbrev IsMadeWith : List ℕ → List ℕ → CentralOrderItem A → Type 0
  IsMadeWith product warehouse i =
      (i.product_id ≡ product) × (i.warehouse_id ≡ warehouse) × (product ≢ []) × (warehouse ≢ [])

  with_warehouse-made :
      (ad : Option BazosAd) (product warehouse : List ℕ) (i : CentralOrderItem A)
      → product ≢ []
      → with_warehouse env line ad product warehouse ≡ mapped i
      → IsMadeWith product warehouse i
  unfolding central_item
  with_warehouse-made ad product [] i given e = absurd (cc e)
  with_warehouse-made ad product (c ∷ cs) i given e =
      let made : central_item env line ad product (c ∷ cs) ≡ i = cc e in
      (
        ap (λ j. j.product_id) (sym made),
        ap (λ j. j.warehouse_id) (sym made),
        given,
        λ none_given. cc,
      )

  with_product_id-made :
      (ad : Option BazosAd) (product : List ℕ) (i : CentralOrderItem A)
      → with_product_id env line ad product ≡ mapped i
      → IsMadeWith product (resolve_warehouse_id env line ad) i
  with_product_id-made ad [] i e = absurd (cc e)
  with_product_id-made ad (c ∷ cs) i e = with_warehouse-made ad (c ∷ cs) _ i (λ none_given. cc) e

  is_item :
      (ad : Option BazosAd) (product : List ℕ) (i : CentralOrderItem A)
      → with_product_id env line ad product ≡ mapped i
      → ((p : List ℕ) → p ≡ product → IsSource env account_id s line ad p)
      → IsItemOf env account_id s line i
  is_item ad product i e source =
      let (p, w, product_given, warehouse_given) = with_product_id-made ad product i e in
      record {
        ad = ad;
        product_given = λ none_given. product_given (sym p ∙ none_given);
        source = source i.product_id p;
        warehouse_given = λ none_given. warehouse_given (sym w ∙ none_given);
        warehouse = w;
      }

  of_ad-item :
      (ad : BazosAd) (id : Option ℕ) (i : CentralOrderItem A)
      → find_bazos_ad_for_line env.orders account_id (some line) s ≡ ok (some ad)
      → ad.product_id ≡ id
      → of_ad env line ad id ≡ mapped i
      → IsItemOf env account_id s line i
  unfolding find_bazos_ad_for_line
  of_ad-item ad none i found has e = absurd (cc e)
  of_ad-item ad (some id) i found has e =
      let own =
        (==-iff ad.account_id account_id).0
          (&&-eq-true _ _ (
            find_first-test _ s.ads ad (
              find_bazos_ad_for_line-first env.orders account_id (some line) s (some ad)
                found))).0 in
      is_item (some ad) _ i e (λ p q. from_ad ad id found own has q)

  not_mapped : (r : MissingReason) (i : CentralOrderItem A) → unmapped r ≢ mapped i
  not_mapped r i e = cc

  of_found-item :
      (ad : Option BazosAd) (i : CentralOrderItem A)
      → find_bazos_ad_for_line env.orders account_id (some line) s ≡ ok ad
      → of_found env line ad ≡ mapped i
      → IsItemOf env account_id s line i
  of_found-item (some ad) i found e = of_ad-item ad ad.product_id i found refl e
  of_found-item none i found e = elim (Bool-cases (has_line_identifier (some line))) [
    | inl named ↦ absurd (not_mapped unknown_ad i (sym (rw named refl) ∙ e))
    | inr unnamed ↦ is_item none _ i (sym (rw unnamed refl) ∙ e) (λ p q. from_line unnamed q)
  ]

  of_query-item :
      (m : Outcome (Option BazosAd)) (i : CentralOrderItem A)
      → find_bazos_ad_for_line env.orders account_id (some line) s ≡ m
      → of_query env line m ≡ mapped i
      → IsItemOf env account_id s line i
  of_query-item (ok ad) i found e = of_found-item ad i found e
  of_query-item (err x) i found e = absurd (cc e)

module _ {A : Type 0} (env : ItemsEnv A) (account_id : ℕ) (s : Store) where
  push_item-both :
      (m : LineMapping A) (rest : ItemMapping A) (is : List (CentralOrderItem A))
      → push_item env m rest ≡ available is
      → (i : CentralOrderItem A) × (js : List (CentralOrderItem A)) × (m ≡ mapped i)
        × (rest ≡ available js)
        × (is ≡ i ∷ js)
  push_item-both (unmapped r) rest is e = absurd (cc e)
  push_item-both (failed x) rest is e = absurd (cc e)
  push_item-both (mapped i) (thrown x) is e = absurd (cc e)
  push_item-both (mapped i) (unavailable r) is e = absurd (cc e)
  push_item-both (mapped i) (available js) is e = (i, js, refl, refl, sym (cc e))

  map_lines-items :
      (lines : List Json) (is : List (CentralOrderItem A))
      → map_lines env account_id s lines ≡ available is
      → AreItemsOf env account_id s lines is
  unfolding map_lines map_line
  map_lines-items [] is e = subst (AreItemsOf env account_id s []) (cc e) no_item
  map_lines-items (line ∷ lines) is e =
      let (i, js, first, rest, both) = push_item-both _ (map_lines env account_id s lines) is e in
      subst (AreItemsOf env account_id s (line ∷ lines)) (sym both) (
        next_item (of_query-item env account_id s line _ i refl first)
          (map_lines-items lines js rest))

  not_empty-same :
      (m : ItemMapping A) (is : List (CentralOrderItem A))
      → not_empty env m ≡ available is
      → (m ≡ available is) × (is ≢ [])
  not_empty-same (unavailable r) is e = absurd (cc e)
  not_empty-same (thrown x) is e = absurd (cc e)
  not_empty-same (available []) is e = absurd (cc e)
  not_empty-same (available (i ∷ js)) is e = (e, λ empty. cc)

  from_lines-items :
      (lines : List Json) (is : List (CentralOrderItem A))
      → from_lines env account_id s lines ≡ available is
      → (is ≢ []) × AreItemsOf env account_id s lines is
  from_lines-items [] is e = absurd (cc e)
  from_lines-items (line ∷ lines) is e =
      let (same, some_item) = not_empty-same (map_lines env account_id s (line ∷ lines)) is e in
      (some_item, map_lines-items (line ∷ lines) is same)

  -- If an order can be forwarded, then it has items, and they are those of its lines, one for each, in
  -- their order. Each item names a warehouse, which the line or the check of its ad gives, and a product:
  -- the one of the ad that the line names, which is an ad of the order's account, or, if the line names
  -- no ad, the one that the line names.
  pub build_central_order_items-AreItemsOf :
      (data_ : Option Json) (is : List (CentralOrderItem A))
      → build_central_order_items env data_ account_id s ≡ available is
      → (is ≢ []) × AreItemsOf env account_id s (extract_source_lines data_) is
  unfolding build_central_order_items
  build_central_order_items-AreItemsOf data_ is e =
      from_lines-items (extract_source_lines data_) is e
