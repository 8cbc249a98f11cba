-- ===== src/Base/Members.antt =====
-- Where an element of a list that was filtered, sorted or cut comes from.
use bazos.Base.Tests.{Bool-cases}
use Prim.Native.Nat.{ℕ, zero, suc}
use mathlib.Core.Path.{◌≡◌, refl}
use mathlib.Core.Logic.{◌⊎◌, inl, inr}
use mathlib.Core.Bool.{Bool, true, false}
use mathlib.Core.List.{List, [], ◌∷◌, ◌++◌, map}
use mathlib.Core.Option.{none, some}
use native.Mathlib.Omega.{arith}
use bazos.Base.Lists.{Exists, select, take, insert_by, sort_by, find_first, update_where, All}

module _ {A : Type 0} (P : A → Type 0) where
  pub Exists-map :
      {B : Type 0} (f : B → A) (xs : List B) → Exists P (map f xs) → Exists (λ x. P (f x)) xs
  Exists-map f [] e = e
  Exists-map f (x ∷ xs) (inl e) = inl e
  Exists-map f (x ∷ xs) (inr e) = inr (Exists-map f xs e)

  pub Exists-take : (n : ℕ) (xs : List A) → Exists P (take n xs) → Exists P xs
  Exists-take zero xs e = absurd e
  Exists-take (suc n) [] e = e
  Exists-take (suc n) (x ∷ xs) (inl e) = inl e
  Exists-take (suc n) (x ∷ xs) (inr e) = inr (Exists-take n xs e)

  Exists-insert_by :
      (before : A → A → Bool) (x : A) (xs : List A)
      → Exists P (insert_by before x xs)
      → P x ⊎ Exists P xs
  unfolding insert_by
  Exists-insert_by before x [] e = e
  Exists-insert_by before x (y ∷ ys) e = ground (arith, Exists-insert_by before x ys)

  pub Exists-sort_by :
      (before : A → A → Bool) (xs : List A) → Exists P (sort_by before xs) → Exists P xs
  unfolding sort_by
  Exists-sort_by before [] e = e
  Exists-sort_by before (x ∷ xs) e = elim (Exists-insert_by before x (sort_by before xs) e) [
    | inl h ↦ inl h
    | inr h ↦ inr (Exists-sort_by before xs h)
  ]

  pub Exists-select :
      (p : A → Bool) (xs : List A) → Exists P (select p xs) → Exists (λ x. (p x ≡ true) × P x) xs
  unfolding select
  Exists-select p [] e = e
  Exists-select p (x ∷ xs) e = ground (arith, Exists-select p xs)

  pub Exists-weaken :
      {Q : A → Type 0} → ((x : A) → P x → Q x) → (xs : List A) → Exists P xs → Exists Q xs
  Exists-weaken h [] e = e
  Exists-weaken h (x ∷ xs) (inl e) = inl (h x e)
  Exists-weaken h (x ∷ xs) (inr e) = inr (Exists-weaken h xs e)

module _ {A : Type 0} (p : A → Bool) where
  -- The first match after a change that hits it and disturbs no match.
  pub find_first-update_where :
      (q : A → Bool) (f : A → A)
      → ((x : A) → p (f x) ≡ p x)
      → (xs : List A) (x : A) → find_first p xs ≡ some x
      → q x ≡ true
      → find_first p (update_where q f xs) ≡ some (f x)
  unfolding find_first update_where
  find_first-update_where q f keeps [] x e hit = absurd (cc e)
  find_first-update_where q f keeps (y ∷ ys) x e hit =
      ground (arith, keeps y, find_first-update_where q f keeps ys x)

  -- The first match after a new row, where there was none.
  pub find_first-append :
      (xs : List A) (x : A)
      → find_first p xs ≡ none
      → p x ≡ true
      → find_first p (xs ++ x ∷ []) ≡ some x
  unfolding find_first
  find_first-append [] x e hit = ground arith
  find_first-append (y ∷ ys) x e hit = ground (arith, find_first-append ys x)

  pub find_first-test : (xs : List A) (x : A) → find_first p xs ≡ some x → p x ≡ true
  unfolding find_first
  find_first-test [] x e = absurd (cc e)
  find_first-test (y ∷ ys) x e = ground (arith, find_first-test ys x)

  pub find_first-eq-none : (xs : List A) → find_first p xs ≡ none → All (λ x. p x ≡ false) xs
  unfolding find_first
  find_first-eq-none [] e = tt
  find_first-eq-none (x ∷ xs) e = ground (arith, find_first-eq-none xs)

  pub find_first-Exists :
      (Q : A → Type 0) (xs : List A) (x : A) → find_first p xs ≡ some x → Q x → Exists Q xs
  unfolding find_first
  find_first-Exists Q [] x e q = absurd (cc e)
  find_first-Exists Q (y ∷ ys) x e q = ground (arith, find_first-Exists Q ys x)

module _ {ℓ κ} {A : Type ℓ} (P : A → Type κ) where
  pub All-select : (p : A → Bool) (xs : List A) → All P xs → All P (select p xs)
  unfolding select
  All-select p [] h = h
  All-select p (x ∷ xs) (h, hs) = elim (Bool-cases (p x)) [
    | inl e ↦ rw e (h, All-select p xs hs)
    | inr e ↦ rw e (All-select p xs hs)
  ]

  pub All-map {ℓ'} :
      {B : Type ℓ'} (f : B → A) (xs : List B) → All (λ x. P (f x)) xs → All P (map f xs)
  All-map f [] h = h
  All-map f (x ∷ xs) (h, hs) = (h, All-map f xs hs)

  pub All-weaken {κ'} :
      {Q : A → Type κ'} → ((x : A) → Q x → P x) → (xs : List A) → All Q xs → All P xs
  All-weaken h [] q = tt
  All-weaken h (x ∷ xs) (q, qs) = (h x q, All-weaken h xs qs)

module _ {A : Type 0} (p : A → Bool) where
  pub select-Exists :
      (P : A → Type 0) (xs : List A) → Exists (λ x. (p x ≡ true) × P x) xs → Exists P (select p xs)
  unfolding select
  select-Exists P [] e = e
  select-Exists P (x ∷ xs) (inl (hit, h)) = rw hit (inl h)
  select-Exists P (x ∷ xs) (inr e) = elim (Bool-cases (p x)) [
    | inl hit ↦ rw hit (inr (select-Exists P xs e))
    | inr out ↦ rw out (select-Exists P xs e)
  ]

  pub select-eq-nil : (xs : List A) → ¬ Exists (λ x. p x ≡ true) xs → select p xs ≡ []
  unfolding select
  select-eq-nil [] h = refl
  select-eq-nil (x ∷ xs) h = elim (Bool-cases (p x)) [
    | inl hit ↦ absurd (h (inl hit))
    | inr out ↦ rw out (select-eq-nil xs (λ e. h (inr e)))
  ]

module _ {A B : Type 0} (P : A → Type 0) (f : B → A) where
  pub map-Exists : (xs : List B) → Exists (λ x. P (f x)) xs → Exists P (map f xs)
  map-Exists [] e = e
  map-Exists (x ∷ xs) (inl h) = inl h
  map-Exists (x ∷ xs) (inr e) = inr (map-Exists xs e)

module _ {A : Type 0} (P : A → Type 0) where
  pub Exists-witness : (xs : List A) → Exists P xs → (x : A) × P x
  Exists-witness [] e = absurd e
  Exists-witness (x ∷ xs) (inl h) = (x, h)
  Exists-witness (x ∷ xs) (inr e) = Exists-witness xs e

  pub Exists-keyed :
      (key : A → ℕ) (xs : List A) → Exists P xs → (k : ℕ) × Exists (λ x. (key x ≡ k) × P x) xs
  Exists-keyed key [] e = absurd e
  Exists-keyed key (x ∷ xs) (inl h) = (key x, inl (refl, h))
  Exists-keyed key (x ∷ xs) (inr e) = let (k, rest) = Exists-keyed key xs e in (k, inr rest)

  -- An element passes a test or fails it.
  pub Exists-cases :
      (p : A → Bool) (xs : List A)
      → Exists P xs
      → Exists (λ x. (p x ≡ true) × P x) xs ⊎ Exists (λ x. (p x ≡ false) × P x) xs
  Exists-cases p [] e = absurd e
  Exists-cases p (x ∷ xs) (inl h) = elim (Bool-cases (p x)) [
    | inl hit ↦ inl (inl (hit, h))
    | inr out ↦ inr (inl (out, h))
  ]
  Exists-cases p (x ∷ xs) (inr e) = elim (Exists-cases p xs e) [
    | inl hit ↦ inl (inr hit)
    | inr out ↦ inr (inr out)
  ]
