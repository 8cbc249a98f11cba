-- ===== src/Store/Avoids.antt =====
-- What an operation does not bring about, whatever its outcome: a row with a property in a table
-- that had none. The rules follow the steps of a `do` block.
use bazos.Base.{
  ℕ, ◌≡◌, refl, Option, none, some, Bool, true, false, List, [], ◌∷◌, ◌++◌, inl, inr, if◌then◌else◌,
  Exists, update_where, nat_eq, ◌==◌, arith, subst, ==-iff, ◌∙◌,
}
use bazos.Store.Rows.{Store}
use bazos.Store.Tables.{
  M, Outcome, ok, err, Error, return, throw, throw_if, or_throw, continue, ◌>>=◌, Table, by_key,
  find_unique, find_where, update, create, write, ◌>>◌,
}

pub Exists-update_where :
    {A : Type 0} (P : A → Type 0) (p : A → Bool) (f : A → A)
    → ((x : A) → p x ≡ true → P (f x) → P x)
    → (xs : List A) → Exists P (update_where p f xs)
    → Exists P xs
unfolding update_where
Exists-update_where P p f h [] e = e
Exists-update_where P p f h (x ∷ xs) e = ground (arith, h x, Exists-update_where P p f h xs)

Exists-concat :
    {A : Type 0} (P : A → Type 0) (xs : List A) (x : A)
    → ¬ P x
    → Exists P (xs ++ x ∷ [])
    → Exists P xs
Exists-concat P [] x h (inl e) = h e
Exists-concat P [] x h (inr e) = elim e [ ]
Exists-concat P (y ∷ ys) x h (inl e) = inl e
Exists-concat P (y ∷ ys) x h (inr e) = inr (Exists-concat P ys x h e)

pub record Avoids {ℓ} {R : Type 0} (t : Table R) (P : R → Type 0) {A : Type ℓ} (m : M A)
    : Type 0 where
  pub at : (s : Store) → Exists P (t.rows (m s).1) → Exists P (t.rows s)

-- `u` is another table than `t`: writing its rows leaves those of `t` as they are.
pub record IsOther {R Q : Type 0} (t : Table R) (u : Table Q) : Type 0 where
  pub kept : (rs : List Q) (s : Store) → t.rows (u.with_rows rs s) ≡ t.rows s

module _ {R : Type 0} (t : Table R) (P : R → Type 0) where
  continue-Exists {ℓ κ} :
      {A : Type ℓ} {B : Type κ} (f : A → M B) (r : Outcome A × Store)
      → ((a : A) → Avoids t P (f a))
      → Exists P (t.rows (continue f r).1)
      → Exists P (t.rows r.1)
  continue-Exists f (ok a, s) h = (h a).at s
  continue-Exists f (err e, s) h = λ x. x

  pub >>=-Avoids {ℓ κ} :
      {A : Type ℓ} {B : Type κ} {m : M A} {f : A → M B}
      → Avoids t P m
      → ((a : A) → Avoids t P (f a))
      → Avoids t P (m >>= f)
  unfolding ◌>>=◌
  >>=-Avoids {m} {f} h k = record { at = λ s e. h.at s (continue-Exists f (m s) k e) }

  pub return-Avoids {ℓ} : {A : Type ℓ} (a : A) → Avoids t P (return a)
  unfolding return
  return-Avoids a = record { at = λ s e. e }

  pub throw-Avoids {ℓ} : {A : Type ℓ} (e : Error) → Avoids t P (throw {A = A} e)
  unfolding throw
  throw-Avoids e = record { at = λ s x. x }

  pub or_throw-Avoids {ℓ} : {A : Type ℓ} (o : Option A) (e : Error) → Avoids t P (or_throw o e)
  unfolding or_throw
  or_throw-Avoids none e = record { at = λ s x. x }
  or_throw-Avoids (some a) e = record { at = λ s x. x }

  pub throw_if-Avoids : (b : Bool) (e : Error) → Avoids t P (throw_if b e)
  unfolding throw_if
  throw_if-Avoids true e = record { at = λ s x. x }
  throw_if-Avoids false e = record { at = λ s x. x }

  -- What follows a guard runs only where its test fails.
  pub guard-Avoids {ℓ} :
      {A : Type ℓ} (b : Bool) (e : Error) (m : M A)
      → (b ≡ false → Avoids t P m)
      → Avoids t P (throw_if b e >> m)
  unfolding ◌>>=◌
  guard-Avoids true e m h = record { at = λ s x. x }
  guard-Avoids false e m h = record { at = λ s x. (h refl).at s x }

  pub if-Avoids {ℓ} :
      {A : Type ℓ} (b : Bool) {m n : M A}
      → Avoids t P m
      → Avoids t P n
      → Avoids t P (if b then m else n)
  if-Avoids true h k = h
  if-Avoids false h k = k

  pub find_where-Avoids : {Q : Type 0} (u : Table Q) (p : Q → Bool) → Avoids t P (find_where u p)
  unfolding find_where
  find_where-Avoids u p = record { at = λ s x. x }

  pub find_unique-Avoids : {Q : Type 0} (u : Table Q) (k : ℕ) → Avoids t P (find_unique u k)
  unfolding find_unique
  find_unique-Avoids u k = record { at = λ s x. x }

  -- A change of one row by its key, which gives the row the property only if it has it.
  pub update-Avoids :
      (k : ℕ) (f : R → R) → ((x : R) → t.key x ≡ k → P (f x) → P x) → Avoids t P (update t k f)
  unfolding update
  update-Avoids k f h = record { at = λ s. write_one s (by_key t.key k (t.rows s)) }
    where
      write_one :
          (s : Store) (o : Option R) → Exists P (t.rows (write t k f s o).1) → Exists P (t.rows s)
      write_one s none e = e
      write_one s (some r) e =
          Exists-update_where P (λ x. t.key x == k) f (λ x hit. h x ((==-iff _ _).0 hit)) (t.rows s)
            (subst (Exists P) (t.rows-with_rows _ s) e)

  pub create-Avoids : (row : ℕ → R) → ((n : ℕ) → ¬ P (row n)) → Avoids t P (create t row)
  unfolding create
  create-Avoids row h = record {
    at = λ s e.
        Exists-concat P (t.rows s) (row s.next_id) (h s.next_id)
          (subst (Exists P) (t.rows-with_rows _ _) e);
  }

  pub update_other-Avoids :
      {Q : Type 0} {u : Table Q} (k : ℕ) (f : Q → Q) → IsOther t u → Avoids t P (update u k f)
  unfolding update
  update_other-Avoids {Q} {u} k f h = record { at = λ s. write_one s (by_key u.key k (u.rows s)) }
    where
      write_one :
          (s : Store) (o : Option Q) → Exists P (t.rows (write u k f s o).1) → Exists P (t.rows s)
      write_one s none e = e
      write_one s (some r) e = subst (Exists P) (h.kept _ s) e

  pub create_other-Avoids :
      {Q : Type 0} {u : Table Q} (row : ℕ → Q) → IsOther t u → Avoids t P (create u row)
  unfolding create
  create_other-Avoids row h = record {
    at = λ s e. subst (Exists P) (h.kept _ _ ∙ t.rows-next_id s _) e;
  }

pub ruleset avoids_rules = (
  >>=-Avoids, return-Avoids, throw-Avoids, or_throw-Avoids, throw_if-Avoids, if-Avoids,
  find_where-Avoids, find_unique-Avoids, update-Avoids, create-Avoids, update_other-Avoids,
  create_other-Avoids,
)
