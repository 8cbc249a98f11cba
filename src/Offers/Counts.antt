-- ===== src/Offers/Counts.antt =====
-- What a synchronisation does, and counts.
use bazos.Base.{
  ℕ, ◌+◌, ◌≡◌, sym, ap, ◌∙◌, subst, Option, List, [], ◌∷◌, Bool, arith, length, select, some,
}
use bazos.Store.{Store, BazosAccount, Outcome, ok, err, by_key, find_unique}
use bazos.Store.Runs.{Ends, bind-Ends, return-Ends, or_throw-Ends, ok_inj}
use bazos.Store.Loops.{for_each, catch}
use bazos.Offers.{
  OffersEnv, SyncProduct, Synced, created, updated, was_created, was_updated, was_failed,
  SyncResults, sync_each, sync_product, sync_from_catalog,
}
use bazos.Offers.Steps.{
  Synchronises, all_done, one_created, one_updated, one_failed, IsStep, sync_product-IsStep,
}

module _ (env : OffersEnv) (account_id : ℕ) where
  -- The outcomes of a list of products count the steps.
  abbrev Counted : List SyncProduct → Store → Store → List (Outcome Synced) → Type 0
  Counted ps s u os =
      Synchronises env account_id ps s u (length (select was_created os))
        (length (select was_updated os)) (length (select was_failed os))

  push-Counted :
      (p : SyncProduct) (ps : List SyncProduct) (s v u : Store) (o : Outcome Synced)
      (os : List (Outcome Synced))
      → IsStep env account_id p s (o, v)
      → Counted ps v u os
      → Counted (p ∷ ps) s u (o ∷ os)
  unfolding select
  push-Counted p ps s v u (ok created) os step rest = one_created step rest
  push-Counted p ps s v u (ok updated) os step rest = one_updated step rest
  push-Counted p ps s v u (err e) os step rest =
      one_failed (subst (λ w. Counted ps w u os) (sym step) rest)

  sync_each-IsStep :
      (p : SyncProduct) {s v : Store} {o : Outcome Synced}
      → Ends (sync_each env account_id p) s o v
      → IsStep env account_id p s (o, v)
  unfolding catch
  sync_each-IsStep p {s} {v} e =
      subst (λ o. IsStep env account_id p s (o, v)) (ok_inj e.value)
        (subst (λ w. IsStep env account_id p s ((sync_product env account_id p s).0, w)) e.store
          (sync_product-IsStep env account_id p s))

  for_each-Counted :
      (ps : List SyncProduct) {s u : Store} {os : List (Outcome Synced)}
      → Ends (for_each (sync_each env account_id) ps) s os u
      → Counted ps s u os
  unfolding for_each select
  for_each-Counted [] {s} e =
      let (none_left, same) = return-Ends e in
      subst (Counted [] s _) none_left (subst (λ w. Counted [] s w []) same all_done)
  for_each-Counted (p ∷ ps) {s} {u} e =
      let (o, v, first, e1) = bind-Ends e in
      let (os, w, rest, e2) = bind-Ends e1 in
      let (answer, same) = return-Ends e2 in
      subst (Counted (p ∷ ps) s u) answer (
        push-Counted p ps s v u o os (sync_each-IsStep p first)
          (subst (λ x. Counted ps v x os) same (for_each-Counted ps rest)))

Synchronises-total :
    {env : OffersEnv} {account_id : ℕ} {ps : List SyncProduct} {s u : Store} {c n f : ℕ}
    → Synchronises env account_id ps s u c n f
    → c + (n + f) ≡ length ps
Synchronises-total all_done = omega arith
Synchronises-total (one_created step rest) = omega (arith, Synchronises-total rest)
Synchronises-total (one_updated step rest) = omega (arith, Synchronises-total rest)
Synchronises-total (one_failed rest) = omega (arith, Synchronises-total rest)

-- A synchronisation that ends is for an account that is there, and takes the products that Catalog
-- lists one after the other. The answer counts as created those for which an ad with the product's
-- title, or else its name, was added, where the account had none; as updated those for which an ad
-- that the account had was changed, and no other one; as failed those for which nothing was written.
-- The ad that is added or changed shows the stock of Warehouse and the price of Catalog, and is active
-- if there is stock. The three counts add up to the number of products.
pub sync_from_catalog-counts :
    (env : OffersEnv) (account : Option ℕ) (limit : ℕ) (active_only : Bool) (s u : Store)
    (r : SyncResults)
    → Ends (sync_from_catalog env account limit active_only) s r u
    → (id : ℕ) × (products : List SyncProduct) × (account ≡ some id)
      × ((a : BazosAccount) × (by_key (λ (x : BazosAccount). x.id) id s.accounts ≡ some a))
      × (env.search_products active_only limit ≡ some products)
      × Synchronises env id products s u r.created_count r.updated_count r.failed_count
      × (r.total ≡ length products)
      × (r.created_count + (r.updated_count + r.failed_count) ≡ r.total)
unfolding sync_from_catalog find_unique
sync_from_catalog-counts env account limit active_only s u r e =
    let (id, t, given, e1) = bind-Ends e in
    let (o, v, looked, e2) = bind-Ends e1 in
    let (a, w, there, e3) = bind-Ends e2 in
    let (products, x, listed, e4) = bind-Ends e3 in
    let (outcomes, y, looped, e5) = bind-Ends e4 in
    let (answer, same) = return-Ends e5 in
    let (has_id, kept) = or_throw-Ends _ _ given in
    let (is_there, kept_too) = or_throw-Ends _ _ there in
    let (are_listed, kept_last) = or_throw-Ends _ _ listed in
    let found =
      ap (λ (w : Store). by_key (λ (x : BazosAccount). x.id) id w.accounts) kept
      ∙ (ok_inj looked.value ∙ is_there) in
    let before : s ≡ x = kept ∙ (looked.store ∙ (kept_too ∙ kept_last)) in
    let total = ap (λ (x : SyncResults). x.total) (sym answer) in
    let steps : Synchronises env id products s u r.created_count r.updated_count r.failed_count =
      subst
        (λ (q : SyncResults).
          Synchronises env id products s u q.created_count q.updated_count q.failed_count)
        answer
        (subst (λ w. Counted env id products w u outcomes) (sym before)
          (subst (λ w. Counted env id products x w outcomes) same
            (for_each-Counted env id products looped))) in
    (
      id,
      products,
      has_id,
      (a, found),
      are_listed,
      steps,
      total,
      omega (arith, total, Synchronises-total steps),
    )
