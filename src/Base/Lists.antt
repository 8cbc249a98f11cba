-- ===== src/Base/Lists.antt =====
-- Lists as the rows of a table: searching, filtering, updating and ordering.
use Prim.Native.Nat.{ℕ, zero, suc, ◌+◌, ◌≤◌}
use mathlib.Core.Path.{◌≡◌, refl}
use mathlib.Core.Logic.{◌↔◌, ◌⊎◌}
use mathlib.Core.Bool.{Bool, true, false, ◌||◌}
use mathlib.Core.Option.{Option, none, some}
use mathlib.Core.List.{List, [], ◌∷◌, ◌++◌, map}
use native.Mathlib.Omega.{arith}
use bazos.Base.Tests.{if◌then◌else◌}

module _ {ℓ} {A : Type ℓ} where
  abbrev pub length : List A → ℕ
  length [] = 0
  length (x ∷ xs) = suc (length xs)

  abbrev pub take : ℕ → List A → List A
  take zero xs = []
  take (suc n) [] = []
  take (suc n) (x ∷ xs) = x ∷ take n xs

  unfoldable pub any : (A → Bool) → List A → Bool
  any p [] = false
  any p (x ∷ xs) = p x || any p xs

  unfoldable pub find_first : (A → Bool) → List A → Option A
  find_first p [] = none
  find_first p (x ∷ xs) = if p x then some x else find_first p xs

  unfoldable pub select : (A → Bool) → List A → List A
  select p [] = []
  select p (x ∷ xs) = let rest = select p xs in if p x then x ∷ rest else rest

  unfoldable pub update_where : (A → Bool) → (A → A) → List A → List A
  update_where p f [] = []
  update_where p f (x ∷ xs) = (if p x then f x else x) ∷ update_where p f xs

  -- Insertion before the first element that is not `before` it.
  unfoldable pub insert_by : (A → A → Bool) → A → List A → List A
  insert_by before x [] = x ∷ []
  insert_by before x (y ∷ ys) = if before y x then y ∷ insert_by before x ys else x ∷ y ∷ ys

  unfoldable pub sort_by : (A → A → Bool) → List A → List A
  unfolding insert_by
  sort_by before [] = []
  sort_by before (x ∷ xs) = insert_by before x (sort_by before xs)

  pub length-append : (xs ys : List A) → length (xs ++ ys) ≡ length xs + length ys
  length-append [] ys = omega arith
  length-append (x ∷ xs) ys = omega (arith, length-append xs ys)

pub length-map {ℓ κ} :
    {A : Type ℓ} {B : Type κ} (f : A → B) (xs : List A) → length (map f xs) ≡ length xs
length-map f [] = refl
length-map f (x ∷ xs) = omega (arith, length-map f xs)

module _ {ℓ κ} {A : Type ℓ} (P : A → Type κ) where
  abbrev pub All : List A → Type κ
  All [] = Unit
  All (x ∷ xs) = P x × All xs

module _ {ℓ} {A : Type ℓ} where
  pub append-eq-nil_iff : (xs ys : List A) → (xs ++ ys ≡ []) ↔ ((xs ≡ []) × (ys ≡ []))
  append-eq-nil_iff [] ys = (λ e. (refl, e), λ h. h.1)
  append-eq-nil_iff (x ∷ xs) ys = (λ e. cc, λ h. absurd (cc h.0))

module _ {A : Type 0} (P : A → Type 0) where
  abbrev pub Exists : List A → Type 0
  Exists [] = ⊥
  Exists (x ∷ xs) = P x ⊎ Exists xs

  -- A test that holds exactly of a predicate finds an element of it, or shows that there is none.
  module _ (p : A → Bool) (reflects : (x : A) → (p x ≡ true) ↔ P x) where
    pub any-eq-true_iff : (xs : List A) → (any p xs ≡ true) ↔ Exists xs
    unfolding any
    any-eq-true_iff [] = (λ e. cc, λ h. absurd h)
    any-eq-true_iff (x ∷ xs) = ground (arith, reflects x, any-eq-true_iff xs)

    pub any-eq-false_iff : (xs : List A) → (any p xs ≡ false) ↔ All (λ x. ¬ P x) xs
    unfolding any
    any-eq-false_iff [] = (λ e. tt, λ h. refl)
    any-eq-false_iff (x ∷ xs) = ground (arith, reflects x, any-eq-false_iff xs)

module _ {ℓ} {A : Type ℓ} (p : A → Bool) where
  pub select-append : (xs ys : List A) → select p (xs ++ ys) ≡ select p xs ++ select p ys
  unfolding select
  select-append [] ys = refl
  select-append (x ∷ xs) ys = ground (arith, select-append xs ys)

  -- What an update takes out of a selection is not selected again.
  pub select-update_where_none :
      (f : A → A)
      → ((x : A) → p x ≡ true → p (f x) ≡ false)
      → (xs : List A) → select p (update_where p f xs) ≡ []
  unfolding select update_where
  select-update_where_none f h [] = refl
  select-update_where_none f h (x ∷ xs) = ground (arith, h x, select-update_where_none f h xs)

  -- An update of other rows that leaves them outside a selection leaves the selection alone.
  pub select-update_where_other :
      (q : A → Bool) (f : A → A)
      → ((x : A) → p x ≡ true → q x ≡ false)
      → ((x : A) → p x ≡ true → q (f x) ≡ false)
      → (xs : List A) → select q (update_where p f xs) ≡ select q xs
  unfolding select update_where
  select-update_where_other q f h k [] = refl
  select-update_where_other q f h k (x ∷ xs) =
      ground (arith, h x, k x, select-update_where_other q f h k xs)

  -- What `f` keeps of each row is kept of the table.
  pub map-update_where {κ} :
      {B : Type κ} (g : A → B) (f : A → A)
      → ((x : A) → g (f x) ≡ g x)
      → (xs : List A) → map g (update_where p f xs) ≡ map g xs
  unfolding update_where
  map-update_where g f h [] = refl
  map-update_where g f h (x ∷ xs) = ground (arith, h x, map-update_where g f h xs)

module _ {ℓ} {A : Type ℓ} where
  pub length-take-le : (n : ℕ) (xs : List A) → length (take n xs) ≤ n
  length-take-le zero xs = ground arith
  length-take-le (suc n) [] = ground arith
  length-take-le (suc n) (x ∷ xs) = ground (arith, length-take-le n xs)
