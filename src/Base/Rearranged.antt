-- ===== src/Base/Rearranged.antt =====
-- What holds of a list that was put in another order, filtered, sorted or cut.
use bazos.Base.Tests.{Bool-cases, some_inj, if◌then◌else◌}
use Prim.Native.Nat.{ℕ, zero, suc}
use mathlib.Core.Path.{◌≡◌, refl, sym, ◌∙◌, subst}
use mathlib.Core.Logic.{inl, inr}
use mathlib.Core.Bool.{Bool, true, false}
use mathlib.Core.List.{List, [], ◌∷◌, map, Permᴰ}
use mathlib.Core.Option.{some}
use bazos.Base.Lists.{Exists, select, take, insert_by, sort_by, find_first, All}
use bazos.Base.Members.{All-weaken}

-- A list in another order has the same elements.
module _ {A : Type 0} (P : A → Type 0) where
  pub All-perm : {xs ys : List A} → Permᴰ xs ys → All P xs → All P ys
  All-perm Permᴰ.nil h = h
  All-perm (Permᴰ.cons e d) (h, hs) = (subst P e h, All-perm d hs)
  All-perm (Permᴰ.swap e f) (h, (k, hs)) = (subst P f k, (subst P e h, hs))
  All-perm (Permᴰ.trans d e) h = All-perm e (All-perm d h)

  pub Exists-perm : {xs ys : List A} → Permᴰ xs ys → Exists P xs → Exists P ys
  Exists-perm Permᴰ.nil e = e
  Exists-perm (Permᴰ.cons e d) (inl h) = inl (subst P e h)
  Exists-perm (Permᴰ.cons e d) (inr h) = inr (Exists-perm d h)
  Exists-perm (Permᴰ.swap e f) (inl h) = inr (inl (subst P e h))
  Exists-perm (Permᴰ.swap e f) (inr (inl h)) = inl (subst P f h)
  Exists-perm (Permᴰ.swap e f) (inr (inr h)) = inr (inr h)
  Exists-perm (Permᴰ.trans d e) h = Exists-perm e (Exists-perm d h)

  -- What no key has left, no element has.
  pub All-keyed :
      (key : A → ℕ) (xs : List A)
      → ((k : ℕ) → ¬ Exists (λ x. (key x ≡ k) × P x) xs)
      → All (λ x. ¬ P x) xs
  All-keyed key [] h = tt
  All-keyed key (x ∷ xs) h = (λ p. h (key x) (inl (refl, p)), All-keyed key xs (λ k e. h k (inr e)))

module _ {A : Type 0} (P Q : A → Type 0) where
  pub All-both : (xs : List A) → All P xs → All Q xs → All (λ x. P x × Q x) xs
  All-both [] h k = tt
  All-both (x ∷ xs) (h, hs) (k, ks) = ((h, k), All-both xs hs ks)

module _ {A : Type 0} (p : A → Bool) (P : A → Type 0) where
  pub select-All : (xs : List A) → All (λ x. p x ≡ true → P x) xs → All P (select p xs)
  unfolding select
  select-All [] h = tt
  select-All (x ∷ xs) (h, hs) = elim (Bool-cases (p x)) [
    | inl hit ↦ rw hit (h hit, select-All xs hs)
    | inr out ↦ rw out (select-All xs hs)
  ]

module _ {A : Type 0} (P Q : A → Type 0) where
  pub All-Exists : (xs : List A) → All P xs → Exists Q xs → (x : A) × P x × Q x
  All-Exists [] h e = absurd e
  All-Exists (x ∷ xs) (h, hs) (inl e) = (x, h, e)
  All-Exists (x ∷ xs) (h, hs) (inr e) = All-Exists xs hs e

module _ {ℓ κ} {A : Type ℓ} {P : A → Type κ} where
  pub All-of : ((x : A) → P x) → (xs : List A) → All P xs
  All-of h [] = tt
  All-of h (x ∷ xs) = (h x, All-of h xs)

module _ {ℓ κ} {A : Type ℓ} (P : A → Type κ) where
  pub All-take : (n : ℕ) (xs : List A) → All P xs → All P (take n xs)
  All-take zero xs h = tt
  All-take (suc n) [] h = h
  All-take (suc n) (x ∷ xs) (h, hs) = (h, All-take n xs hs)

module _ {A : Type 0} (P : A → Type 0) (before : A → A → Bool) where
  All-insert_by : (x : A) (xs : List A) → P x → All P xs → All P (insert_by before x xs)
  unfolding insert_by
  All-insert_by x [] h hs = (h, tt)
  All-insert_by x (y ∷ ys) h (k, ks) = elim (Bool-cases (before y x)) [
    | inl e ↦ rw e (k, All-insert_by x ys h ks)
    | inr e ↦ rw e (h, (k, ks))
  ]

  pub All-sort_by : (xs : List A) → All P xs → All P (sort_by before xs)
  unfolding sort_by
  All-sort_by [] h = tt
  All-sort_by (x ∷ xs) (h, hs) = All-insert_by x (sort_by before xs) h (All-sort_by xs hs)

module _ {A B : Type 0} (f : A → B) (p : A → Bool) where
  -- The keys of the selected elements.
  abbrev IsKey : List A → B → Type 0
  IsKey xs y = Exists (λ x. (f x ≡ y) × (p x ≡ true)) xs

  select-step :
      (b : Bool) (x : A) (xs ys : List A)
      → p x ≡ b
      → All (IsKey (x ∷ xs)) (map f ys)
      → All (IsKey (x ∷ xs)) (map f (if b then x ∷ ys else ys))
  select-step true x xs ys hit h = (inl (refl, hit), h)
  select-step false x xs ys hit h = h

  pub map-select-All : (xs : List A) → All (IsKey xs) (map f (select p xs))
  unfolding select
  map-select-All [] = tt
  map-select-All (x ∷ xs) =
      select-step (p x) x xs (select p xs) refl
        (All-weaken _ (λ y e. inr e) (map f (select p xs)) (map-select-All xs))

module _ {A : Type 0} (P : A → Type 0) (p : A → Bool) where
  pub find_first-All : (xs : List A) (x : A) → All P xs → find_first p xs ≡ some x → P x
  unfolding find_first
  find_first-All [] x h e = absurd (cc e)
  find_first-All (y ∷ ys) x (h, hs) e = elim (Bool-cases (p y)) [
    | inl hit ↦ subst P (some_inj (sym (rw hit refl) ∙ e)) h
    | inr out ↦ find_first-All ys x hs (sym (rw out refl) ∙ e)
  ]
