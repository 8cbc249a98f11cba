-- ===== src/Monitoring/Counts.antt =====
-- After the counts are reconciled they are the numbers of tracked ads.
use bazos.Base.{
  ℕ, ◌≡◌, ◌≢◌, refl, sym, ap, ◌∙◌, subst, Option, List, [], ◌∷◌, true, false, Exists, All, inl, inr,
  ◌⊎◌, String, arith, select, length, update_where, ◌==◌, nat_eq, ==-iff, Bool-cases, ℕ_discrete,
  All-select, select-Exists, Exists-weaken,
}
use bazos.Store.{
  Store, BazosAd, BazosIdentity, bazos_identity, ◌>>=◌, count, throw_if, not_found, find_many,
}
use bazos.Store.Avoids.{Exists-update_where}
use bazos.Store.Runs.{Ends, join-Ends}
use bazos.Store.Loops.{
  for_each, Runs, >>=-Runs, return-Runs, for_each-Runs, for_each_in-Avoids, for_each_in-clears,
  update_where-clears,
}
use bazos.Store.Held.{update-Runs, Has, Has-update, by_key_self}
use bazos.Monitoring.{
  CountResult, is_tracked, is_asked_for, set_count, write_count, reconcile_one,
  reconcile_identity_counts, is_absent,
}

abbrev pub tracked_count : ℕ → List BazosAd → ℕ
tracked_count id ads = length (select (is_tracked id) ads)

-- From `s` to `t` the ads stay as they are, and no identity is lost.
abbrev Counting : Store → Store → Type 0
Counting s t = (t.ads ≡ s.ads) × ((k : ℕ) → Has bazos_identity k s → Has bazos_identity k t)

module _ (s : Store) where
  write_count-Runs :
      (i : BazosIdentity) (n : ℕ) → Has bazos_identity i.id s → Runs (Counting s) (write_count i n)
  unfolding write_count
  write_count-Runs i n h = elim (Bool-cases (i.active_ad_count == n)) [
    | inl same ↦ rw same (return-Runs (Counting s) tt)
    | inr other ↦ rw other (
        >>=-Runs (Counting s)
          (update-Runs bazos_identity (Counting s) i.id (set_count n) (λ t p. p.1 i.id h)
            λ t p.
              (p.0, λ k q. Has-update bazos_identity (set_count n) (λ x. refl) i.id k t (p.1 k q)))
          λ _. return-Runs (Counting s) tt)
  ]

  reconcile_one-Runs :
      (i : BazosIdentity) → Has bazos_identity i.id s → Runs (Counting s) (reconcile_one i)
  unfolding reconcile_one count
  reconcile_one-Runs i h =
      >>=-Runs (Counting s)
        (record { at = λ t p. (length (select (is_tracked i.id) t.ads), refl, p) })
        λ n. >>=-Runs (Counting s) (write_count-Runs i n h) λ _. return-Runs (Counting s) _

  -- The store after a step.
  reconcile_one_store :
      (i : BazosIdentity) (t : Store)
      → Has bazos_identity i.id s
      → Counting s t
      → ((i.active_ad_count ≡ tracked_count i.id s.ads)
          × ((reconcile_one i t).1.identities ≡ t.identities))
        ⊎ ((i.active_ad_count ≢ tracked_count i.id s.ads)
            × ((reconcile_one i t).1.identities
                ≡ update_where
                    (λ x. x.id == i.id)
                    (set_count (tracked_count i.id s.ads))
                    t.identities))
  unfolding reconcile_one write_count ◌>>=◌
  reconcile_one_store i t h (same_ads, kept) =
      let (r, found) = kept i.id h in
      elim (Bool-cases (i.active_ad_count == tracked_count i.id s.ads)) [
        | inl same ↦ inl ((==-iff _ _).0 same, rw (same_ads, same) refl)
        | inr other ↦ inr (λ e. ground (arith, other, e), rw (same_ads, other, found) refl)
      ]

  module _ (user_id : String) (only : Option ℕ) (k : ℕ) where
    -- An identity `k` that the call asks for, with a wrong count.
    IsWrong : BazosIdentity → Type 0
    IsWrong i =
        (i.id ≡ k)
        × (is_asked_for user_id only i ≡ true)
        × (i.active_ad_count ≢ tracked_count k s.ads)

    counted-not-IsWrong :
        (n : ℕ) (i : BazosIdentity) → n ≡ k → ¬ IsWrong (set_count (tracked_count n s.ads) i)
    unfolding IsWrong
    counted-not-IsWrong n i same (_, _, wrong) = wrong (ap (λ m. tracked_count m s.ads) same)

    reconcile_one-avoids :
        (i : BazosIdentity) (t : Store)
        → Has bazos_identity i.id s
        → Counting s t
        → Exists IsWrong (reconcile_one i t).1.identities
        → Exists IsWrong t.identities
    unfolding IsWrong
    reconcile_one-avoids i t h c e = elim (reconcile_one_store i t h c) [
      | inl (_, rows) ↦ subst (Exists IsWrong) rows e
      | inr (_, rows) ↦
          Exists-update_where IsWrong (λ x. x.id == i.id) _
            (λ x hit wrong.
              absurd (counted-not-IsWrong i.id x (sym ((==-iff _ _).0 hit) ∙ wrong.0) wrong))
            t.identities (subst (Exists IsWrong) rows e)
    ]

    reconcile_one-clears :
        (i : BazosIdentity) (t : Store)
        → IsWrong i
        → Has bazos_identity i.id s
        → Counting s t
        → ¬ Exists IsWrong (reconcile_one i t).1.identities
    unfolding IsWrong
    reconcile_one-clears i t wrong h c e = elim (reconcile_one_store i t h c) [
      | inl (right, _) ↦ wrong.2 (right ∙ ap (λ m. tracked_count m s.ads) (wrong.0))
      | inr (_, rows) ↦
          update_where-clears IsWrong (λ x. x.id == i.id) _
            (λ x bad. (==-iff _ _).1 (bad.0 ∙ sym (wrong.0)))
            (λ x. counted-not-IsWrong i.id x (wrong.0)) t.identities (subst (Exists IsWrong) rows e)
    ]

    identities_right :
        ¬ Exists IsWrong
          (for_each reconcile_one (select (is_asked_for user_id only) s.identities) s).1.identities
    unfolding IsWrong
    identities_right e =
        let good =
          All-select (λ (i : BazosIdentity). Has bazos_identity i.id s) (is_asked_for user_id only)
            s.identities (by_key_self (λ (i : BazosIdentity). i.id) s.identities) in
        let start : Counting s s = (refl, λ k h. h) in
        let was =
          for_each_in-Avoids (Counting s) reconcile_one (λ i. Has bazos_identity i.id s)
            reconcile_one-Runs bazos_identity IsWrong reconcile_one-avoids _ s good start e in
        for_each_in-clears (Counting s) reconcile_one (λ i. Has bazos_identity i.id s)
          reconcile_one-Runs bazos_identity IsWrong reconcile_one-avoids IsWrong
          reconcile_one-clears _ s good start
          (select-Exists (is_asked_for user_id only) IsWrong s.identities
            (Exists-weaken _ (λ i h. (h.1, h)) s.identities was))
          e

-- A property that no row lacks, one identifier at a time, is one that all rows have.
All-from_keys :
    (P : BazosIdentity → Type 0) (f g : BazosIdentity → ℕ) (xs : List BazosIdentity)
    → ((k : ℕ) → ¬ Exists (λ i. (i.id ≡ k) × P i × (f i ≢ g i)) xs)
    → All (λ i. P i → f i ≡ g i) xs
All-from_keys P f g [] h = tt
All-from_keys P f g (i ∷ is) h = (
  λ p. elim (ℕ_discrete (f i) (g i)) [
    | yes same ↦ same
    | no other ↦ absurd (h i.id (inl (refl, p, other)))
  ],
  All-from_keys P f g is (λ k e. h k (inr e)),
)

counted_right :
    (user_id : String) (only : Option ℕ) (s : Store) (is : List BazosIdentity) (ads : List BazosAd)
    → ads ≡ s.ads
    → ((k : ℕ) → ¬ Exists (IsWrong s user_id only k) is)
    → (k : ℕ)
    → ¬ Exists
        (λ i.
          (i.id ≡ k)
          × (is_asked_for user_id only i ≡ true)
          × (i.active_ad_count ≢ tracked_count i.id ads))
        is
unfolding IsWrong
counted_right user_id only s is ads same none_wrong k e = none_wrong k (
    Exists-weaken _
      (λ i (here, asked, wrong). (
        here,
        asked,
        λ right. wrong (
            right
            ∙ ap (λ l. tracked_count k l) (sym same)
            ∙ ap (λ n. tracked_count n ads) (sym here)),
      ))
      is e)

-- Reconciling the counts of identities that are there ends, and leaves every ad as it was.
-- Afterwards the count of each identity that was asked for is the number of its active published
-- ads.
pub reconcile_identity_counts-counts :
    (user_id : String) (only : Option ℕ) (s : Store)
    → is_absent only (select (is_asked_for user_id only) s.identities) ≡ false
    → (t : Store) × (rs : List CountResult) × Ends (reconcile_identity_counts user_id only) s rs t
      × (t.ads ≡ s.ads)
      × All
          (λ i. is_asked_for user_id only i ≡ true → i.active_ad_count ≡ tracked_count i.id t.ads)
          t.identities
unfolding reconcile_identity_counts find_many throw_if
reconcile_identity_counts-counts user_id only s present =
    let good =
      All-select (λ (i : BazosIdentity). Has bazos_identity i.id s) (is_asked_for user_id only)
        s.identities (by_key_self (λ (i : BazosIdentity). i.id) s.identities) in
    let loop =
      for_each-Runs (Counting s) reconcile_one (λ i. Has bazos_identity i.id s)
        (reconcile_one-Runs s) _ good in
    let (rs, ends, counting) = loop.at s (refl, λ k h. h) in
    let is = select (is_asked_for user_id only) s.identities in
    let t = (for_each reconcile_one is s).1 in
    (
      t,
      rs,
      join-Ends (find_many bazos_identity (is_asked_for user_id only)) _
          (record { value = refl; store = refl })
          (join-Ends (throw_if (is_absent only is) not_found) _
            (record { value = rw present refl; store = rw present refl })
            (record { value = ends; store = refl })),
      counting.0,
      All-from_keys _ (λ i. i.active_ad_count) (λ i. tracked_count i.id t.ads) t.identities
          (counted_right user_id only s t.identities t.ads counting.0
            (λ k. identities_right s user_id only k)),
    )
