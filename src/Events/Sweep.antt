-- ===== src/Events/Sweep.antt =====
-- A loop that writes each ad of a list, save those that it skips, by a change of the row under the
-- ad's identifier. The handlers of events and the reconciliation of availability are such loops.
use bazos.Events.{is_of_product}
use bazos.Base.{
  ℕ, ◌≡◌, refl, sym, ap, ◌∙◌, subst, List, [], ◌∷◌, Bool, true, false, Exists, All, inl, inr,
  Bool-cases, update_where, ◌==◌, nat_eq, ==-iff, if◌then◌else◌, Exists-weaken, All-weaken, Permᴰ,
  All-perm, Exists-perm, Exists-cases, select, select-Exists, All-select, All-keyed, All-Exists,
}
use bazos.Store.{Store, BazosAd, M, ok, bazos_ad, return}
use bazos.Store.Avoids.{Exists-update_where}
use bazos.Store.Loops.{
  for_each, Runs, for_each-Runs, for_each-store, for_each_in-Avoids, for_each_in-clears,
  update_where-clears,
}
use bazos.Store.Held.{Has, Has-update, by_key_self}

abbrev pub swept : (BazosAd → Bool) → (BazosAd → BazosAd → BazosAd) → BazosAd → Store → Store
swept skips change a s =
    if skips a then s else bazos_ad.with_rows (update_where (λ x. x.id == a.id) (change a) s.ads) s

pub record IsSweep {ℓ} {B : Type ℓ} (step : BazosAd → M B) (skips : BazosAd → Bool)
    (change : BazosAd → BazosAd → BazosAd) : Type ℓ where
  pub keeps : (a x : BazosAd) → (change a x).id ≡ x.id
  pub ends : (a : BazosAd) (s : Store) → Has bazos_ad a.id s → (b : B) × ((step a s).0 ≡ ok b)
  pub store :
      (a : BazosAd) (s : Store) → Has bazos_ad a.id s → (step a s).1 ≡ swept skips change a s

-- No ad of `s` is missing in `t`.
abbrev pub Kept : Store → Store → Type 0
Kept s t = (k : ℕ) → Has bazos_ad k s → Has bazos_ad k t

module _ {ℓ} {B : Type ℓ} {step : BazosAd → M B} {skips : BazosAd → Bool}
    {change : BazosAd → BazosAd → BazosAd} (sweep : IsSweep step skips change) (s : Store) where
  swept-skip : (a : BazosAd) (t : Store) → skips a ≡ true → swept skips change a t ≡ t
  swept-skip a t e = rw e refl

  swept-write :
      (a : BazosAd) (t : Store)
      → skips a ≡ false
      → swept skips change a t
        ≡ bazos_ad.with_rows (update_where (λ x. x.id == a.id) (change a) t.ads) t
  swept-write a t e = rw e refl

  swept-Kept : (a : BazosAd) (t : Store) → Kept s t → Kept s (swept skips change a t)
  swept-Kept a t kept k h = elim (Bool-cases (skips a)) [
    | inl e ↦ rw e (kept k h)
    | inr e ↦ rw e (Has-update bazos_ad (change a) (sweep.keeps a) a.id k t (kept k h))
  ]

  pub step-Runs : (a : BazosAd) → Has bazos_ad a.id s → Runs (Kept s) (step a)
  step-Runs a h = record {
    at = λ t kept.
        let (b, e) = sweep.ends a t (kept a.id h) in
        (b, e, subst (Kept s) (sym (sweep.store a t (kept a.id h))) (swept-Kept a t kept));
  }

  -- A loop that skips everything changes nothing.
  pub skipped :
      (ads : List BazosAd)
      → All (λ a. Has bazos_ad a.id s × (skips a ≡ true)) ads
      → (for_each step ads s).1 ≡ s
  unfolding for_each return
  skipped [] h = refl
  skipped (a ∷ ads) ((here, skip), rest) =
      let first = sweep.store a s here ∙ swept-skip a s skip in
      let all = All-weaken (λ (a : BazosAd). Has bazos_ad a.id s) (λ x h. h.0) ads rest in
      for_each-store (Kept s) step (λ a. Has bazos_ad a.id s) step-Runs a ads s here all (λ j h. h)
      ∙ ap (λ t. (for_each step ads t).1) first
      ∙ skipped ads rest

  module _ (P : BazosAd → Type 0) (gone : (a x : BazosAd) → ¬ P (change a x)) (k : ℕ) where
    -- The ad `k`, with the property.
    abbrev Left : BazosAd → Type 0
    Left x = (x.id ≡ k) × P x

    step-avoids :
        (a : BazosAd) (t : Store)
        → Has bazos_ad a.id s
        → Kept s t
        → Exists Left (step a t).1.ads
        → Exists Left t.ads
    step-avoids a t h kept e =
        let after = subst (λ u. Exists Left u.ads) (sweep.store a t (kept a.id h)) e in
        elim (Bool-cases (skips a)) [
          | inl skip ↦ subst (λ u. Exists Left u.ads) (swept-skip a t skip) after
          | inr write ↦
              Exists-update_where Left (λ x. x.id == a.id) (change a)
                (λ x hit bad. absurd (gone a x (bad.1))) t.ads
                (subst (λ u. Exists Left u.ads) (swept-write a t write) after)
        ]

    pub sweep-avoids :
        (ads : List BazosAd)
        → All (λ a. Has bazos_ad a.id s) ads
        → Exists Left (for_each step ads s).1.ads
        → Exists Left s.ads
    sweep-avoids ads good =
        for_each_in-Avoids (Kept s) step (λ a. Has bazos_ad a.id s) step-Runs bazos_ad Left
          step-avoids ads s good (λ j h. h)

    step-clears :
        (a : BazosAd) (t : Store)
        → (a.id ≡ k) × (skips a ≡ false)
        → Has bazos_ad a.id s
        → Kept s t
        → ¬ Exists Left (step a t).1.ads
    step-clears a t (here, write) h kept e =
        update_where-clears Left (λ x. x.id == a.id) (change a)
          (λ x bad. (==-iff _ _).1 (bad.0 ∙ sym here)) (λ x bad. gone a x (bad.1)) t.ads
          (subst (λ u. Exists Left u.ads) (sweep.store a t (kept a.id h) ∙ swept-write a t write) e)

    -- An ad that the loop meets and does not skip loses the property that no written row has.
    pub sweep-clears :
        (ads : List BazosAd)
        → All (λ a. Has bazos_ad a.id s) ads
        → Exists (λ a. (a.id ≡ k) × (skips a ≡ false)) ads
        → ¬ Exists Left (for_each step ads s).1.ads
    sweep-clears ads good met =
        for_each_in-clears (Kept s) step (λ a. Has bazos_ad a.id s) step-Runs bazos_ad Left
          step-avoids (λ a. (a.id ≡ k) × (skips a ≡ false)) step-clears ads s good (λ j h. h) met

-- The database lists each row that it finds once.
abbrev pub IsOrder : (List BazosAd → List BazosAd) → Type 0
IsOrder order = (ads : List BazosAd) → Permᴰ ads (order ads)

module _ {ℓ} {B : Type ℓ} {step : BazosAd → M B} {skips : BazosAd → Bool}
    {change : BazosAd → BazosAd → BazosAd} (sweep : IsSweep step skips change)
    (order : List BazosAd → List BazosAd) (is_order : IsOrder order) (p : ℕ) (s : Store) where
  abbrev pub listed : List BazosAd
  listed = order (select (is_of_product p) s.ads)

  pub listed-Has : All (λ a. Has bazos_ad a.id s) listed
  listed-Has =
      All-perm (λ a. Has bazos_ad a.id s) (is_order _)
        (All-select (λ (a : BazosAd). Has bazos_ad a.id s) (is_of_product p) s.ads
          (by_key_self (λ (a : BazosAd). a.id) s.ads))

  -- The loop over the ads of a product ends.
  pub sweep-Runs :
      (bs : List B) × ((for_each step listed s).0 ≡ ok bs) × Kept s (for_each step listed s).1
  sweep-Runs =
      (for_each-Runs (Kept s) step (λ a. Has bazos_ad a.id s) (step-Runs sweep s) listed
          listed-Has).at
        s (λ k h. h)

  -- No ad of the product keeps a property that no written row has, save those that are skipped.
  pub product-clears :
      (P : BazosAd → Type 0)
      → ((a x : BazosAd) → ¬ P (change a x))
      → ((x : BazosAd) → P x → is_of_product p x ≡ true)
      → (k : ℕ) → ¬ Exists (λ x. (x.id ≡ k) × P x × (skips x ≡ true)) s.ads
      → ¬ Exists (λ x. (x.id ≡ k) × P x) (for_each step listed s).1.ads
  product-clears P gone of_product k none_skipped e =
      let before = sweep-avoids sweep s P gone k listed listed-Has e in
      elim (Exists-cases _ skips s.ads before) [
        | inl skipped_one ↦
            none_skipped
              (Exists-weaken _ (λ x (skip, (here, bad)). (here, bad, skip)) s.ads skipped_one)
        | inr met ↦
            sweep-clears sweep s P gone k listed listed-Has
              (Exists-perm _ (is_order _) (
                select-Exists (is_of_product p) _ s.ads (
                  Exists-weaken _ (λ x (write, (here, bad)). (of_product x bad, (here, write)))
                    s.ads met)))
              e
      ]

  -- A test that every written row passes holds of each ad of the product afterwards, if the ads that
  -- are skipped pass it already.
  pub product-All :
      (good : BazosAd → Bool)
      → ((a x : BazosAd) → good (change a x) ≡ true)
      → All (λ x. is_of_product p x ≡ true → skips x ≡ true → good x ≡ true) s.ads
      → All (λ x. is_of_product p x ≡ true → good x ≡ true) (for_each step listed s).1.ads
  product-All good written settled =
      let t = (for_each step listed s).1 in
      All-weaken _
        (λ x not_left of_product. elim (Bool-cases (good x)) [
          | inl e ↦ e
          | inr e ↦ absurd (not_left (of_product, e))
        ])
        t.ads
        (All-keyed (λ x. (is_of_product p x ≡ true) × (good x ≡ false)) (λ x. x.id) t.ads
          λ k.
            product-clears (λ x. (is_of_product p x ≡ true) × (good x ≡ false))
              (λ a x (_, bad). cc (bad, written a x)) (λ x h. h.0) k
              λ e.
                let (x, pass, (here, (of_product, bad), skip)) = All-Exists _ _ s.ads settled e in
                cc (bad, pass of_product skip))
