-- ===== src/Store/Held.antt =====
-- Rows that are in a table under their key, and stay there when rows are updated.
use bazos.Base.{
  ℕ, ◌≡◌, refl, Option, none, some, List, [], ◌∷◌, All, inl, inr, subst, ap, ◌∙◌, ◌==◌, nat_eq,
  update_where, ℕ_discrete, find_first, ==-iff, All-weaken, Bool-cases,
}
use mathlib.Core.Option
use bazos.Store.Rows.{Store}
use bazos.Store.Tables.{ok, Table, by_key, update, write}
use bazos.Store.Keys.{by_key-update_self, by_key-update_ne}
use bazos.Store.Loops.{Runs}

-- A row with the key is there. Updates keep it there.
abbrev pub Has : {R : Type 0} → Table R → ℕ → Store → Type 0
Has {R} t k s = (r : R) × (by_key t.key k (t.rows s) ≡ some r)

module _ {R : Type 0} (t : Table R) where
  pub by_key-update_where :
      (f : R → R)
      → ((x : R) → t.key (f x) ≡ t.key x)
      → (j k : ℕ) (xs : List R) → ((r : R) × (by_key t.key k xs ≡ some r))
      → (r : R) × (by_key t.key k (update_where (λ x. t.key x == j) f xs) ≡ some r)
  by_key-update_where f keeps j k xs (r, found) = elim (ℕ_discrete k j) [
    | yes same ↦ (
      f r,
      subst
            (λ n.
              by_key t.key k (update_where (λ x. t.key x == n) f xs)
              ≡ Option.map f (by_key t.key k xs))
            same (by_key-update_self t.key f keeps k xs)
          ∙ ap (Option.map f) found,
    )
    | no other ↦ (r, by_key-update_ne t.key f keeps j k xs other ∙ found)
  ]

  pub update-Runs :
      (P : Store → Type 0) (k : ℕ) (f : R → R)
      → ((s : Store) → P s → Has t k s)
      → ((s : Store) → P s → P (t.with_rows (update_where (λ x. t.key x == k) f (t.rows s)) s))
      → Runs P (update t k f)
  unfolding update
  update-Runs P k f found keeps = record {
    at = λ s p. let (r, e) = found s p in written s p r (by_key t.key k (t.rows s)) e;
  }
    where
      written :
          (s : Store) (p : P s) (r : R) (o : Option R)
          → o ≡ some r
          → (x : R) × ((write t k f s o).0 ≡ ok x) × P (write t k f s o).1
      written s p r none e = absurd (cc e)
      written s p r (some x) e = (f x, refl, keeps s p)

  pub Has-update :
      (f : R → R)
      → ((x : R) → t.key (f x) ≡ t.key x)
      → (j k : ℕ) (s : Store) → Has t k s
      → Has t k (t.with_rows (update_where (λ x. t.key x == j) f (t.rows s)) s)
  Has-update f keeps j k s h =
      let (r, e) = by_key-update_where f keeps j k (t.rows s) h in
      (r, ap (by_key t.key k) (t.rows-with_rows _ s) ∙ e)

-- Every row of a table is there under its key.
pub by_key_self :
    {R : Type 0} (key : R → ℕ) (xs : List R)
    → All (λ x. (r : R) × (by_key key (key x) xs ≡ some r)) xs
unfolding find_first
by_key_self key [] = tt
by_key_self key (x ∷ xs) = (
  (x, rw ((==-iff (key x) (key x)).1 refl) refl),
  All-weaken _
      (λ y (r, e). elim (Bool-cases (key x == key y)) [
        | inl hit ↦ (x, rw hit refl)
        | inr out ↦ (r, rw out e)
      ])
      xs (by_key_self key xs),
)
