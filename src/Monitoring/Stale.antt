-- ===== src/Monitoring/Stale.antt =====
-- After the stale submissions are expired there are none left, and the call always ends.
use bazos.Base.{
  ℕ, ◌≡◌, refl, sym, ap, ◌∙◌, subst, Option, none, some, List, [], map, true, false, Exists, inl,
  inr, String, ◌==◌, nat_eq, ==-iff, length, &&-eq-true, ◌&&◌, Option-cases, All-map, All-select,
  All-weaken, length-map, select-eq-nil, Exists-weaken, select-Exists, map-Exists, Exists-keyed,
}
use bazos.Store.{
  Store, BazosAd, BazosPublishAttempt, AttemptStatus-discrete, ok, return, bazos_ad,
  bazos_publish_attempt, by_key,
}
use bazos.Store.Avoids.{Avoids, IsOther, avoids_rules, >>=-Avoids, update-Avoids}
use bazos.Store.Runs.{Ends, bind-Ends, update-Ends, by_key-key, join-Ends}
use bazos.Store.Loops.{
  for_each, for_each-Avoids, for_each-clears, update_where-clears, Avoids-Ends, Runs, >>=-Runs,
  return-Runs, for_each-Runs,
}
use bazos.Store.Held.{update-Runs, Has, Has-update, by_key_self}
use bazos.Publisher.Claim.{identity_ids_for_user, ad_of, linked_ad}
use bazos.Monitoring.{
  is_stale, fail_stale, fail_ad_of, expire_one, stale_before, stale_attempts, find_stale,
  expire_stale_submissions, started_before,
}

ads-IsOther : IsOther bazos_publish_attempt bazos_ad
ads-IsOther = record { kept = λ rs s. refl }

module _ (before : ℕ) (ids : List ℕ) (k : ℕ) where
  -- The attempt `k`, stale.
  abbrev IsStale : BazosPublishAttempt → Type 0
  IsStale a = (a.id ≡ k) × (is_stale before ids a ≡ true)

  failed-not_stale :
      (now : ℕ) (a : BazosPublishAttempt) → ¬ is_stale before ids (fail_stale now a) ≡ true
  unfolding is_stale AttemptStatus-discrete
  failed-not_stale now a e =
      let h : (false && started_before before a.started_at) ≡ true = (&&-eq-true _ _ e).1 in cc h

  fail_ad_of-Avoids : (o : Option BazosAd) → Avoids bazos_publish_attempt IsStale (fail_ad_of o)
  fail_ad_of-Avoids none = search avoids_rules
  fail_ad_of-Avoids (some ad) = search (avoids_rules, ads-IsOther)

  expire_one-Avoids :
      (now : ℕ) (p : BazosPublishAttempt × Option BazosAd)
      → Avoids bazos_publish_attempt IsStale (expire_one now p)
  unfolding expire_one
  expire_one-Avoids now (a, o) =
      >>=-Avoids _ _
        (update-Avoids _ _ a.id (fail_stale now) (λ x _ h. absurd (failed-not_stale now x (h.1))))
        λ _. fail_ad_of-Avoids o

  expire_one-clears :
      (now : ℕ) (p : BazosPublishAttempt × Option BazosAd) (s u : Store) (y : Unit {0})
      → p.0.id ≡ k
      → Ends (expire_one now p) s y u
      → ¬ Exists IsStale u.attempts
  unfolding expire_one
  expire_one-clears now (a, o) s u y same e after =
      let (_, t, updated, rest) = bind-Ends e in
      let (_, _, _, written) = update-Ends bazos_publish_attempt a.id (fail_stale now) updated in
      update_where-clears IsStale (λ x. x.id == a.id) (fail_stale now)
        (λ x h. (==-iff _ _).1 (h.0 ∙ sym same)) (λ x h. failed-not_stale now x (h.1)) s.attempts
        (subst (λ (v : Store). Exists IsStale v.attempts) (sym written)
          (Avoids-Ends bazos_publish_attempt IsStale (fail_ad_of o) (fail_ad_of-Avoids o) rest
            after))

  -- The loop leaves attempt `k` stale only if it was stale and not in the list.
  expired-clears :
      (now : ℕ) (l : List (BazosPublishAttempt × Option BazosAd)) {s u : Store}
      {ys : List (Unit {0})}
      → Ends (for_each (expire_one now) l) s ys u
      → Exists (λ (p : BazosPublishAttempt × Option BazosAd). p.0.id ≡ k) l
      → ¬ Exists IsStale u.attempts
  expired-clears now l e listed =
      for_each-clears bazos_publish_attempt IsStale (expire_one now) _ (expire_one-Avoids now)
        (expire_one-clears now) l listed e

-- From `s` to `t` no attempt and no ad is lost, and the identities stay as they are.
abbrev NoLoss : Store → Store → Type 0
NoLoss s t =
    ((k : ℕ) → Has bazos_publish_attempt k s → Has bazos_publish_attempt k t)
    × ((k : ℕ) → Has bazos_ad k s → Has bazos_ad k t)
    × (t.identities ≡ s.identities)

abbrev HasAd : Store → Option BazosAd → Type 0
HasAd s none = Unit
HasAd s (some ad) = Has bazos_ad ad.id s

module _ (s : Store) where
  fail_ad_of-Runs : (o : Option BazosAd) → HasAd s o → Runs (NoLoss s) (fail_ad_of o)
  fail_ad_of-Runs none h = return-Runs (NoLoss s) tt
  fail_ad_of-Runs (some ad) h =
      >>=-Runs (NoLoss s)
        (update-Runs bazos_ad (NoLoss s) ad.id _ (λ t p. p.1 ad.id h)
          λ t p. (p.0, λ k q. Has-update bazos_ad _ (λ x. refl) ad.id k t (p.1 k q), p.2))
        λ _. return-Runs (NoLoss s) tt

  expire_one-Runs :
      (now : ℕ) (p : BazosPublishAttempt × Option BazosAd)
      → Has bazos_publish_attempt p.0.id s × HasAd s p.1
      → Runs (NoLoss s) (expire_one now p)
  unfolding expire_one
  expire_one-Runs now (a, o) (has_attempt, has_ad) =
      >>=-Runs (NoLoss s)
        (update-Runs bazos_publish_attempt (NoLoss s) a.id (fail_stale now)
          (λ t p. p.0 a.id has_attempt)
          λ t p. (
            λ k q. Has-update bazos_publish_attempt (fail_stale now) (λ x. refl) a.id k t (p.0 k q),
            p.1,
            p.2,
          ))
        λ _. fail_ad_of-Runs o has_ad

  linked_ad-HasAd : (o : Option ℕ) → HasAd s (linked_ad o s.ads)
  linked_ad-HasAd none = tt
  linked_ad-HasAd (some k) = elim (Option-cases (by_key (λ (x : BazosAd). x.id) k s.ads)) [
    | inl missing ↦ rw missing tt
    | inr (ad, found) ↦
        let here : Has bazos_ad ad.id s = (
          ad,
          ap (λ n. by_key (λ (x : BazosAd). x.id) n s.ads) (by_key-key _ k s.ads ad found) ∙ found,
        ) in
        rw found here
  ]

  -- The call ends, and changes no identity.
  expire-Ends :
      (now : ℕ) (user_id : String) (max_age_minutes : Option ℕ)
      → (u : Store) × (ys : List (Unit {0})) × Ends
          (for_each
            (expire_one now)
            (map (λ a. (a, ad_of s a)) (stale_attempts now user_id max_age_minutes s)))
          s
          ys
          u
        × (u.identities ≡ s.identities)
  unfolding stale_attempts
  expire-Ends now user_id max_age_minutes =
      let l = map (λ a. (a, ad_of s a)) (stale_attempts now user_id max_age_minutes s) in
      let listed =
        All-map
          (λ (p : BazosPublishAttempt × Option BazosAd).
            Has bazos_publish_attempt p.0.id s × HasAd s p.1)
          (λ a. (a, ad_of s a)) _
          (All-select _ (is_stale _ _) s.attempts (
            All-weaken _ (λ a here. (here, linked_ad-HasAd a.ad_id)) s.attempts
              (by_key_self (λ (a : BazosPublishAttempt). a.id) s.attempts))) in
      let (ys, done, kept) =
        (for_each-Runs (NoLoss s) (expire_one now) _ (expire_one-Runs now) l listed).at s
          (λ k h. h, λ k h. h, refl) in
      ((for_each (expire_one now) l s).1, ys, record { value = done; store = refl }, kept.2)

stale-eq-nil :
    (now : ℕ) (user_id : String) (max_age_minutes : Option ℕ) (s u : Store)
    → u.identities ≡ s.identities
    → ((k : ℕ)
        → ¬ Exists
            (IsStale
              (stale_before now max_age_minutes)
              (identity_ids_for_user user_id s.identities)
              k)
            u.attempts)
    → stale_attempts now user_id max_age_minutes u ≡ []
unfolding stale_attempts
stale-eq-nil now user_id max_age_minutes s u same none_left = select-eq-nil _ u.attempts λ e.
    let (k, left) = Exists-keyed _ (λ (a : BazosPublishAttempt). a.id) u.attempts e in
    none_left k (
      subst
        (λ is.
          Exists (IsStale (stale_before now max_age_minutes) (identity_ids_for_user user_id is) k)
            u.attempts)
        same left)

was_listed :
    (now : ℕ) (user_id : String) (max_age_minutes : Option ℕ) (s : Store) (k : ℕ)
    → Exists
        (IsStale (stale_before now max_age_minutes) (identity_ids_for_user user_id s.identities) k)
        s.attempts
    → Exists
        (λ (p : BazosPublishAttempt × Option BazosAd). p.0.id ≡ k)
        (map (λ a. (a, ad_of s a)) (stale_attempts now user_id max_age_minutes s))
unfolding stale_attempts
was_listed now user_id max_age_minutes s k e =
    map-Exists (λ (p : BazosPublishAttempt × Option BazosAd). p.0.id ≡ k) (λ a. (a, ad_of s a)) _
      (select-Exists _ (λ (a : BazosPublishAttempt). a.id ≡ k) s.attempts
        (Exists-weaken _ (λ a h. (h.1, h.0)) s.attempts e))

-- Expiring stale submissions always ends and says how many there were. Afterwards none is left: no
-- attempt of the user is still being submitted that was started before the time limit.
pub expire_stale_submissions-clears :
    (now : ℕ) (user_id : String) (max_age_minutes : Option ℕ) (s : Store)
    → (u : Store) × Ends
        (expire_stale_submissions now user_id max_age_minutes)
        s
        (length (stale_attempts now user_id max_age_minutes s))
        u
      × (stale_attempts now user_id max_age_minutes u ≡ [])
unfolding expire_stale_submissions find_stale return
expire_stale_submissions-clears now user_id max_age_minutes s =
    let (u, ys, loop, identities) = expire-Ends s now user_id max_age_minutes in
    let before = stale_before now max_age_minutes in
    let ids = identity_ids_for_user user_id s.identities in
    (
      u,
      join-Ends (find_stale now user_id max_age_minutes) _ (record { value = refl; store = refl })
          (join-Ends _ _ loop (record { value = ap ok (length-map _ _); store = refl })),
      stale-eq-nil now user_id max_age_minutes s u identities λ k left.
          expired-clears before ids k now _ loop
            (was_listed now user_id max_age_minutes s k (
              Avoids-Ends bazos_publish_attempt (IsStale before ids k) _
                (for_each-Avoids bazos_publish_attempt _ (expire_one now)
                  (expire_one-Avoids before ids k now) _)
                loop left))
            left,
    )
