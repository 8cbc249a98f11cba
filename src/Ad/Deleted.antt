-- ===== src/Ad/Deleted.antt =====
-- An ad that is gone from Bazos is taken out of the listing here.
use bazos.Base.{
  ℕ, ◌≡◌, ◌≢◌, refl, ap, ◌∙◌, subst, Option, none, some, true, Exists, inl, inr, ◌⊎◌, String,
  update_where, ◌==◌, nat_eq, ==-iff, All-perm, All-select, All-take, find_first-All,
}
use bazos.Store.{
  Store, BazosAd, M, return, ◌>>=◌, update, count, bazos_ad, bazos_identity, PublishStatus, ◌>>◌,
}
use bazos.Store.Avoids.{Avoids, IsOther, >>=-Avoids, return-Avoids, update_other-Avoids}
use bazos.Store.Loops.{update_where-clears}
use bazos.Store.Held.{Has, by_key_self}
use bazos.Events.Sweep.{IsOrder}
use bazos.Monitoring.{set_count}
use bazos.Ad.Tracking.{TrackingEnv, gone, mark_deleted_on_bazos, deleted_on_bazos}
use bazos.Ad.Refresh.{
  status_or_failed, is_refreshable, due_ad, reconcile_identity_count, apply_status,
  refresh_due_external_status, refresh_one, RefreshResult,
}

-- The ad `k`, still listed: active, or with a status other than `deleted`.
abbrev pub IsListed : ℕ → BazosAd → Type 0
IsListed k x = (x.id ≡ k) × ((x.is_active ≡ true) ⊎ (x.publish_status ≢ PublishStatus.deleted))

identities-IsOther : IsOther bazos_ad bazos_identity
identities-IsOther = record { kept = λ rs s. refl }

reconcile_identity_count-Avoids :
    (k : ℕ) (o : Option ℕ) → Avoids bazos_ad (IsListed k) (reconcile_identity_count o)
unfolding count
reconcile_identity_count-Avoids k none = return-Avoids bazos_ad (IsListed k) tt
reconcile_identity_count-Avoids k (some id) =
    >>=-Avoids bazos_ad (IsListed k) (record { at = λ s e. e })
      λ n.
        >>=-Avoids bazos_ad (IsListed k)
          (update_other-Avoids bazos_ad (IsListed k) id (set_count n) identities-IsOther)
          λ i. return-Avoids bazos_ad (IsListed k) tt

deleted-not-IsListed :
    (now k : ℕ) (reason : String) (ad x : BazosAd) → ¬ IsListed k (deleted_on_bazos now reason ad x)
deleted-not-IsListed now k reason ad x (_, inl active) = cc active
deleted-not-IsListed now k reason ad x (_, inr other) = other refl

-- What follows the write of a deletion.
abbrev afterwards : Option ℕ → M RefreshResult
afterwards identity_id = do
  reconcile_identity_count identity_id
  return (record { checked = 1; deleted = 1; unknown = 0 })

afterwards-Avoids : (k : ℕ) (o : Option ℕ) → Avoids bazos_ad (IsListed k) (afterwards o)
afterwards-Avoids k o =
    >>=-Avoids bazos_ad (IsListed k) (reconcile_identity_count-Avoids k o)
      λ _. return-Avoids bazos_ad (IsListed k) _

apply_gone :
    (env : TrackingEnv) (due : BazosAd) (reason : String) (s : Store)
    → Has bazos_ad due.id s
    → ¬ Exists (IsListed due.id) (apply_status env due (gone reason) s).1.ads
unfolding ◌>>=◌ mark_deleted_on_bazos update
apply_gone env due reason s (r, found) left =
    let k = due.id in
    let change = deleted_on_bazos env.now reason due in
    let after = bazos_ad.with_rows (update_where (λ x. x.id == k) change s.ads) s in
    let step : (apply_status env due (gone reason) s).1 ≡ (afterwards due.identity_id after).1 =
      rw found refl in
    update_where-clears (IsListed k) (λ x. x.id == k) change (λ x bad. (==-iff x.id k).1 (bad.0))
      (λ x. deleted-not-IsListed env.now k reason due x) s.ads
      ((afterwards-Avoids k due.identity_id).at after
        (subst (λ u. Exists (IsListed k) u.ads) step left))

due_ad-Has :
    (env : TrackingEnv) (s : Store) (due : BazosAd)
    → IsOrder env.by_updated_at
    → due_ad env s ≡ some due
    → Has bazos_ad due.id s
unfolding due_ad
due_ad-Has env s due is_order e =
    find_first-All (λ a. Has bazos_ad a.id s) _ _ due
      (All-take (λ (a : BazosAd). Has bazos_ad a.id s) 100 _
        (All-perm (λ (a : BazosAd). Has bazos_ad a.id s) (is_order _)
          (All-select (λ (a : BazosAd). Has bazos_ad a.id s) is_refreshable s.ads
            (by_key_self (λ (a : BazosAd). a.id) s.ads))))
      e

-- If the public page of the ad that is due says that the ad is gone, then after the refresh,
-- however it ends, the ad is inactive and has the status `deleted`; provided that the database
-- lists each row once.
pub refresh_due_external_status-deletes :
    (env : TrackingEnv) (s : Store) (due : BazosAd) (reason : String)
    → IsOrder env.by_updated_at
    → due_ad env s ≡ some due
    → env.fetch_bazos_public_status due ≡ some (gone reason)
    → ¬ Exists (IsListed due.id) (refresh_due_external_status env s).1.ads
unfolding refresh_due_external_status
refresh_due_external_status-deletes env s due reason is_order is_due page left =
    apply_gone env due reason s (due_ad-Has env s due is_order is_due) (
      subst (λ u. Exists (IsListed due.id) u.ads)
        (ap (λ o. (refresh_one env o s).1) is_due
          ∙ ap (λ o. (apply_status env due (status_or_failed o) s).1) page)
        left)
