-- ===== src/Reconciliation/Effects.antt =====
-- What a reconciliation leaves behind.
use bazos.Base.{
  ℕ, ◌+◌, ◌≤◌, ◌≡◌, ◌≢◌, refl, sym, ap, ◌∙◌, subst, Option, none, some, Bool, true, false, All,
  Exists, inl, inr, ◌⊎◌, ==_refl, nat_eq, All-perm, All-select, All-take, All-of, Exists-weaken,
}
use bazos.Store.{
  Store, BazosAd, ReviewState, bazos_ad, by_key, UnavailableReason, catalog_product_missing,
  PublishStatus, publish_status_eq, review_state_eq,
}
use bazos.Store.Runs.{Ends}
use bazos.Store.Keys.{by_key-update_ne}
use bazos.Store.Loops.{for_each}
use bazos.Store.Held.{Has, by_key_self}
use bazos.Events.Sweep.{IsSweep, IsOrder, sweep-clears, swept}
use bazos.Events.CatalogLaws.{is_off_sale}
use bazos.Reconciliation.{
  ReconciliationEnv, Options, ReconciliationResult, disabled_by, judge, candidates, reconcile,
  is_candidate, limit_of,
}
use bazos.Reconciliation.Laws.{
  decision, judged, judge_lem, reconciled, reconcile-Ends, judged_each-Runs,
}

judged_kept :
    (dry_run : Bool) (now : ℕ) (ad : BazosAd) (o : Option UnavailableReason) (row : Option BazosAd)
    (k : ℕ) (t : Store)
    → (o ≡ none) ⊎ (ad.id ≢ k)
    → by_key bazos_ad.key k (judged dry_run now ad o row t).ads ≡ by_key bazos_ad.key k t.ads
judged_kept dry_run now ad none row k t h = refl
judged_kept true now ad (some reason) row k t h = refl
judged_kept false now ad (some reason) none k t h = refl
judged_kept false now ad (some reason) (some r) k t (inl e) = absurd (cc e)
judged_kept false now ad (some reason) (some r) k t (inr other) =
    by_key-update_ne bazos_ad.key (disabled_by now reason ad) (λ x. refl) ad.id k t.ads
      (λ e. other (sym e))

judged_dry :
    (now : ℕ) (ad : BazosAd) (o : Option UnavailableReason) (row : Option BazosAd) (t : Store)
    → judged true now ad o row t ≡ t
judged_dry now ad none row t = refl
judged_dry now ad (some reason) row t = refl

-- A reconciliation always ends without an exception, whatever Catalog and Warehouse answer. It
-- scans at most 1000 ads, and each of them counts as disabled, as kept or as failed.
pub reconcile-counts :
    (env : ReconciliationEnv) (options : Options) (s : Store)
    → (t : Store) × (r : ReconciliationResult) × Ends (reconcile env options) s r t
      × (r.scanned ≡ r.disabled_count + r.kept_count + r.failed_count)
      × (r.scanned ≤ 1000)
reconcile-counts env options s =
    let (vs, done, kept) =
      (judged_each-Runs env options s (λ t. Unit) (λ ad. Unit) (λ ad t q p. tt)
          (All-of (λ ad. tt) _)).at
        s tt in
    let (r, ends, counts, few) = reconcile-Ends env options s vs done in
    (reconciled env options s, r, ends, counts, few)

reconciled-store :
    (env : ReconciliationEnv) (options : Options) (s : Store)
    → (reconcile env options s).1 ≡ reconciled env options s
reconciled-store env options s =
    let (vs, done, kept) =
      (judged_each-Runs env options s (λ t. Unit) (λ ad. Unit) (λ ad t q p. tt)
          (All-of (λ ad. tt) _)).at
        s tt in
    let (r, ends, counts, few) = reconcile-Ends env options s vs done in ends.store

-- A dry run of the reconciliation leaves the store as it was.
pub reconcile-dry_run :
    (env : ReconciliationEnv) (options : Options) (s : Store)
    → options.dry_run ≡ true
    → (reconcile env options s).1 ≡ s
reconcile-dry_run env options s dry =
    let (vs, done, kept) =
      (judged_each-Runs env options s (λ t. t ≡ s) (λ ad. Unit)
          (λ ad t q p.
            ap
              (λ d.
                judged d env.now ad (decision env ad.product_id) (by_key bazos_ad.key ad.id t.ads)
                  t)
              dry
            ∙ judged_dry env.now ad _ _ t
            ∙ p)
          (All-of (λ ad. tt) _)).at
        s refl in
    reconciled-store env options s ∙ kept

-- A reconciliation leaves the ad under an identifier as it was, unless an ad with that identifier
-- is among those scanned and Catalog or Warehouse gives a reason to disable it.
pub reconcile-keeps :
    (env : ReconciliationEnv) (options : Options) (k : ℕ) (s : Store)
    → All (λ ad. (decision env ad.product_id ≡ none) ⊎ (ad.id ≢ k)) (candidates env options.limit s)
    → by_key bazos_ad.key k (reconcile env options s).1.ads ≡ by_key bazos_ad.key k s.ads
reconcile-keeps env options k s all =
    let (vs, done, kept) =
      (judged_each-Runs env options s
          (λ t. by_key bazos_ad.key k t.ads ≡ by_key bazos_ad.key k s.ads)
          (λ ad. (decision env ad.product_id ≡ none) ⊎ (ad.id ≢ k))
          (λ ad t q p. judged_kept options.dry_run env.now ad _ _ k t q ∙ p) all).at
        s refl in
    ap (λ t. by_key bazos_ad.key k t.ads) (reconciled-store env options s) ∙ kept

abbrev has_none : Option UnavailableReason → Bool
has_none none = true
has_none (some reason) = false

abbrev reason_or : Option UnavailableReason → UnavailableReason
reason_or none = catalog_product_missing
reason_or (some reason) = reason

judged-swept :
    (now : ℕ) (ad r : BazosAd) (o : Option UnavailableReason) (t : Store)
    → judged false now ad o (some r) t
      ≡ swept (λ a. has_none o) (disabled_by now (reason_or o)) ad t
judged-swept now ad r none t = refl
judged-swept now ad r (some reason) t = refl

judge-IsSweep :
    (env : ReconciliationEnv)
    → IsSweep
        (judge env false)
        (λ ad. has_none (decision env ad.product_id))
        (λ ad. disabled_by env.now (reason_or (decision env ad.product_id)) ad)
judge-IsSweep env = record {
  keeps = λ a x. refl;
  ends = λ a s here. let (v, e, after) = judge_lem env false a s in (v, e);
  store = λ a s (r, found).
      let (v, e, after) = judge_lem env false a s in
      after
      ∙ ap (λ o. judged false env.now a (decision env a.product_id) o s) found
      ∙ judged-swept env.now a r (decision env a.product_id) s;
}

disabled-off_sale :
    (now : ℕ) (reason : UnavailableReason) (a x : BazosAd)
    → is_off_sale (disabled_by now reason a x) ≡ true
disabled-off_sale now reason a x =
    rw (==_refl PublishStatus.deleted, ==_refl {A = ℕ} 0, ==_refl {A = Option ReviewState} none)
      refl

reason_given : (o : Option UnavailableReason) → o ≢ none → has_none o ≡ false
reason_given none h = absurd (h refl)
reason_given (some reason) h = refl

-- After a reconciliation that is no dry run, each ad that was scanned and that Catalog or
-- Warehouse gives a reason to disable is inactive and deleted, without stock and without a
-- challenge; provided that the database lists each row once.
pub reconcile-disables :
    (env : ReconciliationEnv) (options : Options) (k : ℕ) (s : Store)
    → IsOrder env.by_updated_at
    → options.dry_run ≡ false
    → Exists
        (λ ad. (ad.id ≡ k) × (decision env ad.product_id ≢ none))
        (candidates env options.limit s)
    → ¬ Exists (λ x. (x.id ≡ k) × (is_off_sale x ≡ false)) (reconcile env options s).1.ads
unfolding candidates
reconcile-disables env options k s is_order live found left =
    let all_there =
      All-take (λ (a : BazosAd). Has bazos_ad a.id s) (limit_of env options.limit) _
        (All-perm (λ (a : BazosAd). Has bazos_ad a.id s) (is_order _)
          (All-select (λ (a : BazosAd). Has bazos_ad a.id s) is_candidate s.ads
            (by_key_self (λ (a : BazosAd). a.id) s.ads))) in
    let same =
      reconciled-store env options s
      ∙ ap (λ d. (for_each (judge env d) (candidates env options.limit s) s).1) live in
    sweep-clears (judge-IsSweep env) s (λ x. is_off_sale x ≡ false)
      (λ a x on_sale. cc (on_sale, disabled-off_sale env.now _ a x)) k
      (candidates env options.limit s) all_there
      (Exists-weaken _ (λ a (here, known). (here, reason_given _ known)) _ found)
      (subst (λ t. Exists (λ x. (x.id ≡ k) × (is_off_sale x ≡ false)) t.ads) same left)
