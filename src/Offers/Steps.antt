-- ===== src/Offers/Steps.antt =====
-- What the synchronisation of one product does, and of a list of products one after the other.
use bazos.Base.{
  All-Exists, find_first-eq-none, true-ne_false, ℕ, suc, ◌≡◌, ◌≢◌, refl, sym, ap, ◌∙◌, Option, none,
  some, List, [], ◌∷◌, ◌++◌, Bool, true, false, Exists, find_first, find_first-test,
  find_first-Exists, ltb, ◌==◌, nat_eq, option_eq, ◌&&◌, &&-eq-true, ==-iff, or_else, String,
}
use mathlib.Core.Option
use bazos.Store.{
  Store, BazosAd, Outcome, ok, err, M, return, ◌>>=◌, or_throw, refused, invalid_query, find_where,
  update, create, write, by_key, bazos_ad, continue,
}
use bazos.Store.Keys.{by_key-update_self, by_key-update_ne}
use bazos.Offers.{
  OffersEnv, SyncProduct, Synced, created, updated, sync_product, sync_ad, synced, synced_new,
}

-- The ad has the account and the product.
abbrev pub IsAdOf : ℕ → SyncProduct → BazosAd → Type 0
IsAdOf account_id p x = (x.account_id ≡ account_id) × (x.product_id ≡ some p.id)

-- The row shows the stock and the price of the product, and is active if there is stock.
pub record ShowsProduct (env : OffersEnv) (p : SyncProduct) (row : BazosAd) : Type 0 where
  pub stock : env.total_available p.id ≡ some row.stock_quantity
  pub price : env.product_price p.id ≡ some row.price
  pub activity : row.is_active ≡ ltb 0 row.stock_quantity

-- An ad of the product is added, where the account had none.
pub record IsAdded (env : OffersEnv) (account_id : ℕ) (p : SyncProduct) (s u : Store) : Type 0 where
  pub row : BazosAd
  pub was_absent : ¬ Exists (IsAdOf account_id p) s.ads
  pub is_added : u.ads ≡ s.ads ++ row ∷ []
  pub is_of_product : IsAdOf account_id p row
  pub title : or_else p.title p.name ≡ some row.title
  pub shows : ShowsProduct env p row

-- The ad under the identifier of an ad of the account and the product is changed, and no other one.
pub record IsChanged (env : OffersEnv) (account_id : ℕ) (p : SyncProduct) (s u : Store)
    : Type 0 where
  pub id : ℕ
  pub row : BazosAd
  pub was_there : Exists (λ x. IsAdOf account_id p x × (x.id ≡ id)) s.ads
  pub is_written : by_key (λ (a : BazosAd). a.id) id u.ads ≡ some row
  pub others :
      (k : ℕ)
      → k ≢ id
      → by_key (λ (a : BazosAd). a.id) k u.ads ≡ by_key (λ (a : BazosAd). a.id) k s.ads
  pub shows : ShowsProduct env p row

-- The products are taken one after the other. The numbers count those for which an ad is added, those
-- for which an ad is changed, and those that fail and write nothing.
pub data Synchronises (env : OffersEnv) (account_id : ℕ)
    : List SyncProduct → Store → Store → ℕ → ℕ → ℕ → Type 0 where
  all_done : {s : Store} → Synchronises env account_id [] s s 0 0 0
  one_created :
      {p : SyncProduct} {ps : List SyncProduct} {s v u : Store} {c n f : ℕ}
      → IsAdded env account_id p s v
      → Synchronises env account_id ps v u c n f
      → Synchronises env account_id (p ∷ ps) s u (suc c) n f
  one_updated :
      {p : SyncProduct} {ps : List SyncProduct} {s v u : Store} {c n f : ℕ}
      → IsChanged env account_id p s v
      → Synchronises env account_id ps v u c n f
      → Synchronises env account_id (p ∷ ps) s u c (suc n) f
  one_failed :
      {p : SyncProduct} {ps : List SyncProduct} {s u : Store} {c n f : ℕ}
      → Synchronises env account_id ps s u c n f
      → Synchronises env account_id (p ∷ ps) s u c n (suc f)

module _ (env : OffersEnv) (account_id : ℕ) (p : SyncProduct) where
  -- What a result of the product says of the stores before and after.
  abbrev pub IsStep : Store → Outcome Synced × Store → Type 0
  IsStep s (ok created, u) = IsAdded env account_id p s u
  IsStep s (ok updated, u) = IsChanged env account_id p s u
  IsStep s (err e, u) = s ≡ u

  abbrev is_ad_of : BazosAd → Bool
  is_ad_of ad = ad.account_id == account_id && ad.product_id == some p.id

  is_ad_of-IsAdOf : (x : BazosAd) → is_ad_of x ≡ true → IsAdOf account_id p x
  is_ad_of-IsAdOf x e =
      let (of_account, of_product) = &&-eq-true _ _ e in
      ((==-iff _ _).0 of_account, (==-iff _ _).0 of_product)

  absent : (xs : List BazosAd) → find_first is_ad_of xs ≡ none → ¬ Exists (IsAdOf account_id p) xs
  absent xs e there =
      let (x, out, (of_account, of_product)) =
        All-Exists (λ x. is_ad_of x ≡ false) (IsAdOf account_id p) xs
          (find_first-eq-none is_ad_of xs e) there in
      let hit : is_ad_of x ≡ true =
        rw ((==-iff _ _).1 of_account, (==-iff _ _).1 of_product) refl in
      true-ne_false (sym hit ∙ out)

  shown :
      (stock price : ℕ) (row : BazosAd)
      → env.total_available p.id ≡ some stock
      → env.product_price p.id ≡ some price
      → ShowsProduct env p (synced p price stock row)
  shown stock price row has_stock has_price = record {
    stock = has_stock;
    price = has_price;
    activity = refl;
  }

  changed :
      (stock price : ℕ) (s : Store) (ad : BazosAd) (o : Option BazosAd)
      → env.total_available p.id ≡ some stock
      → env.product_price p.id ≡ some price
      → find_first is_ad_of s.ads ≡ some ad
      → by_key (λ (a : BazosAd). a.id) ad.id s.ads ≡ o
      → IsStep s (continue (λ _. return updated) (write bazos_ad ad.id (synced p price stock) s o))
  unfolding return
  changed stock price s ad none has_stock has_price found read = refl
  changed stock price s ad (some old) has_stock has_price found read = record {
    id = ad.id;
    row = synced p price stock old;
    was_there =
        find_first-Exists is_ad_of (λ x. IsAdOf account_id p x × (x.id ≡ ad.id)) s.ads ad found
          (is_ad_of-IsAdOf ad (find_first-test is_ad_of s.ads ad found), refl);
    is_written =
        by_key-update_self (λ (a : BazosAd). a.id) (synced p price stock) (λ x. refl) ad.id s.ads
        ∙ ap (Option.map (synced p price stock)) read;
    others = λ k other.
        by_key-update_ne (λ (a : BazosAd). a.id) (synced p price stock) (λ x. refl) ad.id k s.ads
          other;
    shows = shown stock price old has_stock has_price;
  }

  added :
      (stock price : ℕ) (s : Store) (title : Option String)
      → env.total_available p.id ≡ some stock
      → env.product_price p.id ≡ some price
      → find_first is_ad_of s.ads ≡ none
      → or_else p.title p.name ≡ title
      → IsStep s (
          continue
            (λ text. create bazos_ad (synced_new env.now account_id p text price stock) >>= λ _.
              return created)
            (or_throw title invalid_query s))
  unfolding ◌>>=◌ create return or_throw
  added stock price s none has_stock has_price found named = refl
  added stock price s (some title) has_stock has_price found named = record {
    row = synced_new env.now account_id p title price stock s.next_id;
    was_absent = absent s.ads found;
    is_added = refl;
    is_of_product = (refl, refl);
    title = named;
    shows = record { stock = has_stock; price = has_price; activity = refl };
  }

  synced-IsStep :
      (stock price : ℕ) (s : Store) (o : Option BazosAd)
      → env.total_available p.id ≡ some stock
      → env.product_price p.id ≡ some price
      → find_first is_ad_of s.ads ≡ o
      → IsStep s (sync_ad env account_id p price stock o s)
  unfolding ◌>>=◌ update
  synced-IsStep stock price s (some ad) has_stock has_price found =
      changed stock price s ad _ has_stock has_price found refl
  synced-IsStep stock price s none has_stock has_price found =
      added stock price s _ has_stock has_price found refl

  -- The run of a product, after its stock and its price were asked for.
  abbrev answered : Option ℕ → Option ℕ → M Synced
  answered o q = do
    stock ← or_throw o refused
    existing ← find_where bazos_ad is_ad_of
    price ← or_throw q refused
    sync_ad env account_id p price stock existing

  answered-IsStep :
      (o q : Option ℕ) (s : Store)
      → env.total_available p.id ≡ o
      → env.product_price p.id ≡ q
      → IsStep s (answered o q s)
  unfolding ◌>>=◌ or_throw find_where
  answered-IsStep none q s has_stock has_price = refl
  answered-IsStep (some stock) none s has_stock has_price = refl
  answered-IsStep (some stock) (some price) s has_stock has_price =
      synced-IsStep stock price s _ has_stock has_price refl

  pub sync_product-IsStep : (s : Store) → IsStep s (sync_product env account_id p s)
  unfolding sync_product
  sync_product-IsStep s = answered-IsStep _ _ s refl refl
