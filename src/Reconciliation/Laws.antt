-- ===== src/Reconciliation/Laws.antt =====
-- A reconciliation always ends; it disables the ads that it should, and touches no other.
use bazos.Base.{
  ℕ, ◌+◌, ◌≤◌, ◌≡◌, refl, sym, ◌∙◌, subst, Option, none, some, Option-cases, List, [], ◌∷◌, length,
  Bool, true, false, All, inl, inr, arith, select, ◌==◌, nat_eq, update_where, ℤ, pos, negsuc,
  length-take-le,
}
use bazos.Store.{
  Store, BazosAd, Outcome, ok, err, return, throw, ◌>>=◌, update, bazos_ad, by_key,
  UnavailableReason,
}
use bazos.Store.Runs.{Ends, join-Ends}
use bazos.Store.Loops.{for_each, catch, Runs, for_each-Runs, for_each-length}
use bazos.Reconciliation.{
  ReconciliationEnv, Options, ReconciliationResult, Verdict, disabled, kept, failed, clamp_limit,
  limit_of, or_default, candidates, catalog_non_sellable_reason, warehouse_reason, evaluate_product,
  disabled_by, disable_if, verdict_of, judge, count_of, reconcile, find_candidates, unless_known,
  judge_product, is_candidate,
}

-- The reason to disable an ad: that of Catalog, or else that of Warehouse if it answers.
abbrev pub decided : Option UnavailableReason → Outcome (Option ℤ) → Option UnavailableReason
decided (some reason) reply = some reason
decided none (ok total) = warehouse_reason total
decided none (err e) = none

abbrev pub decision : ReconciliationEnv → Option ℕ → Option UnavailableReason
decision env none = none
decision env (some p) =
    decided (catalog_non_sellable_reason (env.get_product_by_id p)) (env.get_total_available p)

-- The store after an ad was judged, by the reason and by what is under the ad's identifier.
abbrev pub judged : Bool → ℕ → BazosAd → Option UnavailableReason → Option BazosAd → Store → Store
judged dry_run now ad none row s = s
judged true now ad (some reason) row s = s
judged false now ad (some reason) none s = s
judged false now ad (some reason) (some row) s =
    bazos_ad.with_rows (update_where (λ x. x.id == ad.id) (disabled_by now reason ad) s.ads) s

module _ (env : ReconciliationEnv) (dry_run : Bool) (ad : BazosAd) (s : Store) where
  abbrev row : Option BazosAd
  row = by_key bazos_ad.key ad.id s.ads

  disable_if_lem :
      (dry : Bool) (o : Option UnavailableReason)
      → (v : Verdict) × (((catch (disable_if dry env.now ad o) >>= verdict_of) s).0 ≡ ok v)
        × (((catch (disable_if dry env.now ad o) >>= verdict_of) s).1
            ≡ judged dry env.now ad o row s)
  unfolding catch ◌>>=◌ return update
  disable_if_lem dry none = (kept, refl, refl)
  disable_if_lem true (some reason) = (disabled, refl, refl)
  disable_if_lem false (some reason) = elim (Option-cases row) [
    | inl e ↦ (failed, rw e refl, rw e refl)
    | inr (r, e) ↦ (disabled, rw e refl, rw e refl)
  ]

  evaluated_lem :
      (reply : Outcome (Option ℤ)) (o : Option UnavailableReason)
      → (v : Verdict) × (((catch (unless_known reply o >>= disable_if dry_run env.now ad)
              >>= verdict_of)
            s).0
          ≡ ok v)
        × (((catch (unless_known reply o >>= disable_if dry_run env.now ad) >>= verdict_of) s).1
            ≡ judged dry_run env.now ad (decided o reply) row s)
  unfolding catch ◌>>=◌ return throw
  evaluated_lem reply (some reason) = disable_if_lem dry_run (some reason)
  evaluated_lem (ok total) none = disable_if_lem dry_run (warehouse_reason total)
  evaluated_lem (err e) none = (failed, refl, refl)

  judge_product_lem :
      (o : Option ℕ)
      → (v : Verdict) × ((judge_product env dry_run ad o s).0 ≡ ok v)
        × ((judge_product env dry_run ad o s).1 ≡ judged dry_run env.now ad (decision env o) row s)
  unfolding evaluate_product return
  judge_product_lem none = (kept, refl, refl)
  judge_product_lem (some p) =
      evaluated_lem (env.get_total_available p)
        (catalog_non_sellable_reason (env.get_product_by_id p))

  pub judge_lem :
      (v : Verdict) × ((judge env dry_run ad s).0 ≡ ok v)
      × ((judge env dry_run ad s).1 ≡ judged dry_run env.now ad (decision env ad.product_id) row s)
  unfolding judge
  judge_lem = judge_product_lem ad.product_id

count_of-sum :
    (vs : List Verdict) → length vs ≡ count_of disabled vs + count_of kept vs + count_of failed vs
unfolding select
count_of-sum [] = refl
count_of-sum (disabled ∷ vs) = omega (arith, count_of-sum vs)
count_of-sum (kept ∷ vs) = omega (arith, count_of-sum vs)
count_of-sum (failed ∷ vs) = omega (arith, count_of-sum vs)

clamp_limit-le : (o : Option ℤ) → (1 ≤ clamp_limit o) × (clamp_limit o ≤ 1000)
clamp_limit-le none = (omega arith, omega arith)
clamp_limit-le (some (pos n)) = (ground arith, ground arith)
clamp_limit-le (some (negsuc n)) = (omega arith, omega arith)

limit_of-le : (env : ReconciliationEnv) (o : Option (Option ℤ)) → limit_of env o ≤ 1000
unfolding limit_of
limit_of-le env o = (clamp_limit-le (or_default o env.default_limit)).1

module _ (env : ReconciliationEnv) (options : Options) (s : Store) where
  abbrev pub reconciled : Store
  reconciled = (for_each (judge env options.dry_run) (candidates env options.limit s) s).1

  -- A reconciliation whose loop ends.
  pub reconcile-Ends :
      (vs : List Verdict)
      → (for_each (judge env options.dry_run) (candidates env options.limit s) s).0 ≡ ok vs
      → (r : ReconciliationResult) × Ends (reconcile env options) s r reconciled
        × (r.scanned ≡ r.disabled_count + r.kept_count + r.failed_count)
        × (r.scanned ≤ 1000)
  unfolding reconcile candidates
  reconcile-Ends vs done =
      let loop : Ends (for_each (judge env options.dry_run) (candidates env options.limit s)) s vs
          reconciled =
        record { value = done; store = refl } in
      (
        _,
        join-Ends (find_candidates env options.limit) _ (record { value = refl; store = refl })
            (join-Ends _ _ loop (record { value = refl; store = refl })),
        sym (for_each-length _ _ loop) ∙ count_of-sum vs,
        omega (
          arith,
          length-take-le (limit_of env options.limit)
              (env.by_updated_at (select is_candidate s.ads)),
          limit_of-le env options.limit,
        ),
      )

  -- What no judgement changes stays.
  pub judged_each-Runs :
      (P : Store → Type 0) (Q : BazosAd → Type 0)
      → ((ad : BazosAd) (t : Store)
          → Q ad
          → P t
          → P (
              judged options.dry_run env.now ad
                (decision env ad.product_id)
                (by_key bazos_ad.key ad.id t.ads)
                t))
      → All Q (candidates env options.limit s)
      → Runs P (for_each (judge env options.dry_run) (candidates env options.limit s))
  judged_each-Runs P Q keeps =
      for_each-Runs P (judge env options.dry_run) Q
        (λ ad q. record {
          at = λ t p.
              let (v, e, after) = judge_lem env options.dry_run ad t in
              (v, e, subst P (sym after) (keeps ad t q p));
        })
        (candidates env options.limit s)
