-- ===== src/Store/Runs.antt =====
-- What a run that ends without an exception has gone through: each lemma takes one step of a `do`
-- block apart.
use bazos.Base.{
  ℕ, ◌≡◌, refl, sym, ap, Option, none, some, List, [], ◌∷◌, Bool, true, false, arith, find_first,
  update_where, nat_eq, ◌==◌, if◌then◌else◌, subst, ◌⊎◌, inl, inr, ◌∙◌,
}
use bazos.Store.Rows.{Store}
use bazos.Store.Tables.{
  M, Outcome, ok, err, Error, return, throw_if, or_throw, continue, ◌>>=◌, Table, by_key,
  find_where, update, write, create,
}

abbrev value_or {ℓ} : {A : Type ℓ} → A → Outcome A → A
value_or x (ok a) = a
value_or x (err e) = x

pub ok_inj {ℓ} : {A : Type ℓ} {a b : A} → ok a ≡ ok b → a ≡ b
ok_inj {a} e = ap (value_or a) e

abbrev IsOk {ℓ} : {A : Type ℓ} → Outcome A → Type 0
IsOk (ok a) = Unit
IsOk (err e) = ⊥

pub err-ne_ok {ℓ} : {A : Type ℓ} {e : Error} {a : A} → ¬ err e ≡ ok a
err-ne_ok p = subst IsOk (sym p) tt

-- From `s`, `m` ends with the value `a` and the store `t`.
pub record Ends {ℓ} {A : Type ℓ} (m : M A) (s : Store) (a : A) (t : Store) : Type ℓ where
  pub value : (m s).0 ≡ ok a
  pub store : (m s).1 ≡ t

continue-Ends {ℓ κ} :
    {A : Type ℓ} {B : Type κ} (f : A → M B) (r : Outcome A × Store) (b : B) (u : Store)
    → (continue f r).0 ≡ ok b
    → (continue f r).1 ≡ u
    → (a : A) × (t : Store) × (r.0 ≡ ok a) × (r.1 ≡ t) × Ends (f a) t b u
continue-Ends f (ok a, t) b u e h = (a, t, refl, refl, record { value = e; store = h })
continue-Ends f (err x, t) b u e h = absurd (err-ne_ok e)

pub bind-Ends {ℓ κ} :
    {A : Type ℓ} {B : Type κ} {m : M A} {f : A → M B} {s : Store} {b : B} {u : Store}
    → Ends (m >>= f) s b u
    → (a : A) × (t : Store) × Ends m s a t × Ends (f a) t b u
unfolding ◌>>=◌
bind-Ends {m} {f} {s} {b} {u} e =
    let (a, t, v, w, rest) = continue-Ends f (m s) b u e.value e.store in
    (a, t, record { value = v; store = w }, rest)

pub continue-joins {ℓ κ} :
    {A : Type ℓ} {B : Type κ} (f : A → M B) (r : Outcome A × Store) (a : A) (t : Store)
    → r.0 ≡ ok a
    → r.1 ≡ t
    → continue f r ≡ f a t
continue-joins f (ok x, v) a t e h = ap (λ y. f y v) (ok_inj e) ∙ ap (f a) h
continue-joins f (err x, v) a t e h = absurd (err-ne_ok e)

-- The way back: two runs in a row.
pub join-Ends {ℓ κ} :
    {A : Type ℓ} {B : Type κ} (m : M A) (f : A → M B) {s t u : Store} {a : A} {b : B}
    → Ends m s a t
    → Ends (f a) t b u
    → Ends (m >>= f) s b u
unfolding ◌>>=◌
join-Ends m f {s} {t} {a} first rest =
    let same = continue-joins f (m s) a t first.value first.store in
    record { value = ap (λ r. r.0) same ∙ rest.value; store = ap (λ r. r.1) same ∙ rest.store }

pub return-Ends {ℓ} :
    {A : Type ℓ} {a b : A} {s t : Store} → Ends (return a) s b t → (a ≡ b) × (s ≡ t)
unfolding return
return-Ends e = (ok_inj e.value, e.store)

pub throw_if-Ends :
    (b : Bool) (x : Error) {s t : Store} {a : Unit {0}}
    → Ends (throw_if b x) s a t
    → (b ≡ false) × (s ≡ t)
unfolding throw_if
throw_if-Ends true x e = absurd (err-ne_ok e.value)
throw_if-Ends false x e = (refl, e.store)

pub or_throw-Ends {ℓ} :
    {A : Type ℓ} (o : Option A) (x : Error) {s t : Store} {a : A}
    → Ends (or_throw o x) s a t
    → (o ≡ some a) × (s ≡ t)
unfolding or_throw
or_throw-Ends none x e = absurd (err-ne_ok e.value)
or_throw-Ends (some a) x e = (ap some (ok_inj e.value), e.store)

pub if_Ends {ℓ} :
    {A : Type ℓ} (b : Bool) {m n : M A} {s t : Store} {a : A}
    → Ends (if b then m else n) s a t
    → ((b ≡ true) × Ends m s a t) ⊎ ((b ≡ false) × Ends n s a t)
if_Ends true e = inl (refl, e)
if_Ends false e = inr (refl, e)

module _ {R : Type 0} (t : Table R) where
  pub find_where-Ends :
      (p : R → Bool) {s u : Store} {o : Option R}
      → Ends (find_where t p) s o u
      → (find_first p (t.rows s) ≡ o) × (s ≡ u)
  unfolding find_where
  find_where-Ends p e = (ok_inj e.value, e.store)

  write-Ends :
      (k : ℕ) (f : R → R) (s u : Store) (r : R) (o : Option R)
      → (write t k f s o).0 ≡ ok r
      → (write t k f s o).1 ≡ u
      → (x : R) × (o ≡ some x)
        × (f x ≡ r)
        × (t.with_rows (update_where (λ x. t.key x == k) f (t.rows s)) s ≡ u)
  write-Ends k f s u r none e h = absurd (err-ne_ok e)
  write-Ends k f s u r (some x) e h = (x, refl, ok_inj e, h)

  pub update-Ends :
      (k : ℕ) (f : R → R) {s u : Store} {r : R}
      → Ends (update t k f) s r u
      → (x : R) × (by_key t.key k (t.rows s) ≡ some x)
        × (f x ≡ r)
        × (t.with_rows (update_where (λ x. t.key x == k) f (t.rows s)) s ≡ u)
  unfolding update
  update-Ends k f {s} {u} {r} e = write-Ends k f s u r (by_key t.key k (t.rows s)) e.value e.store

module _ {R : Type 0} (key : R → ℕ) where
  pub by_key-key : (k : ℕ) (xs : List R) (x : R) → by_key key k xs ≡ some x → key x ≡ k
  unfolding find_first
  by_key-key k [] x e = absurd (cc e)
  by_key-key k (y ∷ ys) x e = ground (arith, by_key-key k ys x)

module _ {R : Type 0} (t : Table R) where
  pub create-Ends :
      (row : ℕ → R) {s u : Store} {r : R} → Ends (create t row) s r u → row s.next_id ≡ r
  unfolding create
  create-Ends row e = ok_inj e.value
