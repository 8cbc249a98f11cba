-- ===== src/Reconciliation/Tests.antt =====
-- The theorems on the reconciliation at a concrete store, whose product is archived in Catalog.
use bazos.Base.{
  ◌+◌, ◌≤◌, ◌≡◌, refl, none, some, [], ◌∷◌, true, false, Exists, inl, inr, pos, Permᴰ,
  Codes-discrete, String-discrete, ℕ_discrete,
}
use bazos.Json.{obj, field, text, end}
use bazos.Store.{Store, ok, bazos_ad, by_key, catalog_product_archived}
use bazos.Store.Runs.{Ends}
use bazos.Fixtures.{shop, noon}
use bazos.Events.Sweep.{IsOrder}
use bazos.Events.CatalogLaws.{is_off_sale}
use bazos.Reconciliation.{
  ReconciliationEnv, Options, ReconciliationResult, candidates, reconcile,
  catalog_non_sellable_reason,
}
use bazos.Reconciliation.Laws.{decision}
use bazos.Reconciliation.Effects.{reconcile-counts, reconcile-keeps, reconcile-disables}

abbrev archive : ReconciliationEnv
archive = record {
  now = noon;
  get_product_by_id = λ p. some (obj (field "status" (text "Archived") end));
  get_total_available = λ p. ok (some (pos 2));
  default_limit = none;
  by_updated_at = λ ads. ads;
}

abbrev live : Options
live = record { limit = some (some (pos 10)); dry_run = false }

abbrev dry : Options
dry = record { limit = none; dry_run = true }

id-IsOrder : IsOrder (λ ads. ads)
id-IsOrder [] = Permᴰ.nil
id-IsOrder (a ∷ ads) = Permᴰ.cons refl (id-IsOrder ads)

reconcile-counts_example :
    (t : Store) × (r : ReconciliationResult) × Ends (reconcile archive live) shop r t
    × (r.scanned ≡ r.disabled_count + r.kept_count + r.failed_count)
    × (r.scanned ≤ 1000)
reconcile-counts_example = reconcile-counts archive live shop

reconcile-keeps_example :
    by_key bazos_ad.key 21 (reconcile archive live shop).1.ads ≡ by_key bazos_ad.key 21 shop.ads
unfolding candidates
reconcile-keeps_example = reconcile-keeps archive live 21 shop (inr (λ e. cc e), tt)

archived_reason : decision archive (some 70) ≡ some catalog_product_archived
unfolding catalog_non_sellable_reason Codes-discrete String-discrete ℕ_discrete
archived_reason = refl

reconcile-disables_example :
    ¬ Exists (λ x. (x.id ≡ 20) × (is_off_sale x ≡ false)) (reconcile archive live shop).1.ads
unfolding candidates
reconcile-disables_example =
    reconcile-disables archive live 20 shop id-IsOrder refl
      (inl (refl, λ e. cc (e, archived_reason)))
