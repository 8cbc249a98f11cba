-- ===== src/Store/Keys.antt =====
-- Reading a row by its key after a write.
use bazos.Base.{ℕ, ◌≡◌, ◌≢◌, refl, List, [], ◌∷◌, arith, ◌==◌, nat_eq, update_where, find_first}
use mathlib.Core.Option
use bazos.Store.Tables.{by_key}

module _ {R : Type 0} (key : R → ℕ) (f : R → R) (keeps : (x : R) → key (f x) ≡ key x) where
  pub by_key-update_self :
      (k : ℕ) (xs : List R)
      → by_key key k (update_where (λ x. key x == k) f xs) ≡ Option.map f (by_key key k xs)
  unfolding update_where find_first
  by_key-update_self k [] = refl
  by_key-update_self k (x ∷ xs) = ground (arith, keeps x, by_key-update_self k xs)

  pub by_key-update_ne :
      (k j : ℕ) (xs : List R)
      → j ≢ k
      → by_key key j (update_where (λ x. key x == k) f xs) ≡ by_key key j xs
  unfolding update_where find_first
  by_key-update_ne k j [] h = refl
  by_key-update_ne k j (x ∷ xs) h = ground (arith, keeps x, by_key-update_ne k j xs)
