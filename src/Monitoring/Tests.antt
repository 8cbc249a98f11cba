-- ===== src/Monitoring/Tests.antt =====
-- The theorems on the monitoring service at concrete stores.
use bazos.Publisher.Claim.{identity_ids_for_user}
use bazos.Base.{
  ◌≡◌, refl, none, some, List, [], ◌∷◌, true, select, length, All, ◌-◌, Optional-discrete,
  String-discrete, ℕ_discrete, any,
}
use bazos.Store.{Store, submitting, AttemptStatus-discrete}
use bazos.Store.Runs.{Ends}
use bazos.Fixtures.{shop, waiting_attempt, noon, hour}
use bazos.Monitoring.{
  CountResult, is_asked_for, reconcile_identity_counts, expire_stale_submissions, stale_attempts,
  is_stale, started_before,
}
use bazos.Monitoring.Counts.{tracked_count, reconcile_identity_counts-counts}
use bazos.Monitoring.Stale.{expire_stale_submissions-clears}

abbrev hung : Store
hung = record shop {
  attempts = record waiting_attempt { status = submitting; started_at = some (noon - hour) } ∷ [];
}

one_stale : length (stale_attempts noon "eva" none hung) ≡ 1
unfolding stale_attempts select is_stale identity_ids_for_user Optional-discrete String-discrete
    ℕ_discrete AttemptStatus-discrete any started_before
one_stale = refl

expire_stale_submissions-clears_example :
    (u : Store) × Ends
      (expire_stale_submissions noon "eva" none)
      hung
      (length (stale_attempts noon "eva" none hung))
      u
    × (stale_attempts noon "eva" none u ≡ [])
expire_stale_submissions-clears_example = expire_stale_submissions-clears noon "eva" none hung

reconcile_identity_counts-counts_example :
    (t : Store) × (rs : List CountResult) × Ends
      (reconcile_identity_counts "eva" (some 1))
      shop
      rs
      t
    × (t.ads ≡ shop.ads)
    × All
        (λ i. is_asked_for "eva" (some 1) i ≡ true → i.active_ad_count ≡ tracked_count i.id t.ads)
        t.identities
unfolding select Optional-discrete String-discrete ℕ_discrete
reconcile_identity_counts-counts_example = reconcile_identity_counts-counts "eva" (some 1) shop refl
