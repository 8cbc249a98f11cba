-- ===== src/Store/Loops.antt =====
-- Loops over rows: the loop of a service as a function, and what it does not and does bring about.
use bazos.Base.{
  ◌≡◌, refl, List, [], ◌∷◌, Exists, All, inl, inr, subst, sym, ap, ◌∙◌, nat_eq, update_where, Bool,
  true, arith, length, suc,
}
use bazos.Store.Rows.{Store}
use bazos.Store.Tables.{M, Outcome, ok, err, return, continue, ◌>>=◌, Table}
use bazos.Store.Avoids.{Avoids, >>=-Avoids, return-Avoids}
use bazos.Store.Runs.{Ends, bind-Ends, return-Ends, ok_inj, err-ne_ok, continue-joins}

-- `for (const x of xs) results.push(await f(x))`
unfoldable pub for_each {ℓ} : {A : Type 0} {B : Type ℓ} → (A → M B) → List A → M (List B)
for_each f [] = return []
for_each f (x ∷ xs) = do y ← f x; ys ← for_each f xs; return (y ∷ ys)

-- `try { await m } catch`: the exception as a value; what was written stays written.
unfoldable pub catch {ℓ} : {A : Type ℓ} → M A → M (Outcome A)
catch m s = (ok (m s).0, (m s).1)

module _ {R : Type 0} (t : Table R) (P : R → Type 0) where
  pub for_each-Avoids {ℓ} :
      {A : Type 0} {B : Type ℓ} (f : A → M B)
      → ((x : A) → Avoids t P (f x))
      → (xs : List A) → Avoids t P (for_each f xs)
  unfolding for_each
  for_each-Avoids f h [] = return-Avoids t P []
  for_each-Avoids f h (x ∷ xs) =
      >>=-Avoids t P (h x)
        λ y. >>=-Avoids t P (for_each-Avoids f h xs) λ ys. return-Avoids t P (y ∷ ys)

  pub catch-Avoids {ℓ} : {A : Type ℓ} {m : M A} → Avoids t P m → Avoids t P (catch m)
  unfolding catch
  catch-Avoids h = record { at = λ s e. h.at s e }

  pub Avoids-Ends {ℓ} :
      {A : Type ℓ} (m : M A) {s u : Store} {a : A}
      → Avoids t P m
      → Ends m s a u
      → Exists P (t.rows u)
      → Exists P (t.rows s)
  Avoids-Ends m {s} h e x = h.at s (subst (λ v. Exists P (t.rows v)) (sym e.store) x)

  -- If no step brings a row with `P` about, and a step on an element with `Q` leaves none, then a
  -- loop that meets such an element leaves none.
  pub for_each-clears {ℓ} :
      {A : Type 0} {B : Type ℓ} (f : A → M B) (Q : A → Type 0)
      → ((x : A) → Avoids t P (f x))
      → ((x : A) (s u : Store) (y : B) → Q x → Ends (f x) s y u → ¬ Exists P (t.rows u))
      → (xs : List A) {s u : Store} {ys : List B} → Exists Q xs
      → Ends (for_each f xs) s ys u
      → ¬ Exists P (t.rows u)
  unfolding for_each
  for_each-clears f Q h k [] q e x_left = absurd q
  for_each-clears f Q h k (x ∷ xs) (inl q) e x_left =
      let (y, v, first, e1) = bind-Ends e in
      let (ys, w, rest, e2) = bind-Ends e1 in
      k x _ v y q first (
        Avoids-Ends (for_each f xs) (for_each-Avoids f h xs) rest
          (subst (λ v. Exists P (t.rows v)) (sym (return-Ends e2).1) x_left))
  for_each-clears f Q h k (x ∷ xs) (inr q) e x_left =
      let (y, v, first, e1) = bind-Ends e in
      let (ys, w, rest, e2) = bind-Ends e1 in
      subst (λ v. ¬ Exists P (t.rows v)) (return-Ends e2).1 (for_each-clears f Q h k xs q rest)
        x_left

module _ {R : Type 0} (P : R → Type 0) (p : R → Bool) (f : R → R) where
  -- A change of every row that has `P` into one without it leaves none.
  pub update_where-clears :
      ((x : R) → P x → p x ≡ true)
      → ((x : R) → ¬ P (f x))
      → (xs : List R) → ¬ Exists P (update_where p f xs)
  unfolding update_where
  update_where-clears hits gone [] e = e
  update_where-clears hits gone (x ∷ xs) e =
      ground (arith, hits x, gone x, update_where-clears hits gone xs)

-- The operation ends in every store that has what `P` asks for, and leaves it so.
pub record Runs {ℓ} (P : Store → Type 0) {A : Type ℓ} (m : M A) : Type ℓ where
  pub at : (s : Store) → P s → (a : A) × ((m s).0 ≡ ok a) × P (m s).1

module _ (P : Store → Type 0) where
  continue-Runs {ℓ κ} :
      {A : Type ℓ} {B : Type κ} (f : A → M B) (r : Outcome A × Store) (a : A)
      → r.0 ≡ ok a
      → P r.1
      → Runs P (f a)
      → (b : B) × ((continue f r).0 ≡ ok b) × P (continue f r).1
  continue-Runs f (ok x, t) a e p h =
      let (b, done, kept) = h.at t p in
      (b, ap (λ y. (f y t).0) (ok_inj e) ∙ done, subst (λ y. P (f y t).1) (sym (ok_inj e)) kept)
  continue-Runs f (err x, t) a e p h = absurd (err-ne_ok e)

  pub >>=-Runs {ℓ κ} :
      {A : Type ℓ} {B : Type κ} {m : M A} {f : A → M B}
      → Runs P m
      → ((a : A) → Runs P (f a))
      → Runs P (m >>= f)
  unfolding ◌>>=◌
  >>=-Runs {m} {f} h k = record {
    at = λ s p. let (a, e, q) = h.at s p in continue-Runs f (m s) a e q (k a);
  }

  pub return-Runs {ℓ} : {A : Type ℓ} (a : A) → Runs P (return a)
  unfolding return
  return-Runs a = record { at = λ s p. (a, refl, p) }

  pub catch-Runs {ℓ} : {A : Type ℓ} (m : M A) → ((s : Store) → P s → P (m s).1) → Runs P (catch m)
  unfolding catch
  catch-Runs m h = record { at = λ s p. ((m s).0, refl, h s p) }

  pub for_each-Runs {ℓ κ} :
      {A : Type 0} {B : Type ℓ} (f : A → M B) (Q : A → Type κ)
      → ((x : A) → Q x → Runs P (f x))
      → (xs : List A) → All Q xs
      → Runs P (for_each f xs)
  unfolding for_each
  for_each-Runs f Q h [] q = return-Runs []
  for_each-Runs f Q h (x ∷ xs) (q, qs) =
      >>=-Runs (h x q) λ y. >>=-Runs (for_each-Runs f Q h xs qs) λ ys. return-Runs (y ∷ ys)

-- A loop whose steps all end, with an invariant.
module _ {ℓ κ} {A : Type 0} {B : Type ℓ} (I : Store → Type 0) (f : A → M B) (Good : A → Type κ)
    (runs : (x : A) → Good x → Runs I (f x)) where
  pub for_each-store :
      (x : A) (xs : List A) (s : Store)
      → Good x
      → All Good xs
      → I s
      → (for_each f (x ∷ xs) s).1 ≡ (for_each f xs (f x s).1).1
  unfolding for_each ◌>>=◌
  for_each-store x xs s g gs i =
      let (y, first, kept) = (runs x g).at s i in
      let (ys, rest, _) = (for_each-Runs I f Good runs xs gs).at (f x s).1 kept in
      ap (λ r. r.1) (continue-joins _ (f x s) y (f x s).1 first refl)
      ∙ ap (λ r. r.1) (continue-joins _ (for_each f xs (f x s).1) ys _ rest refl)

  module _ {R : Type 0} (t : Table R) (P : R → Type 0)
      (avoids : (x : A) (s : Store)
        → Good x
        → I s
        → Exists P (t.rows (f x s).1)
        → Exists P (t.rows s)) where
    pub for_each_in-Avoids :
        (xs : List A) (s : Store)
        → All Good xs
        → I s
        → Exists P (t.rows (for_each f xs s).1)
        → Exists P (t.rows s)
    unfolding for_each return
    for_each_in-Avoids [] s g i e = e
    for_each_in-Avoids (x ∷ xs) s (g, gs) i e =
        let (y, first, kept) = (runs x g).at s i in
        avoids x s g i (
          for_each_in-Avoids xs (f x s).1 gs kept
            (subst (λ v. Exists P (t.rows v)) (for_each-store x xs s g gs i) e))

    pub for_each_in-clears :
        (Q : A → Type 0)
        → ((x : A) (s : Store) → Q x → Good x → I s → ¬ Exists P (t.rows (f x s).1))
        → (xs : List A) (s : Store) → All Good xs
        → I s
        → Exists Q xs
        → ¬ Exists P (t.rows (for_each f xs s).1)
    for_each_in-clears Q clears [] s g i q e = q
    for_each_in-clears Q clears (x ∷ xs) s (g, gs) i (inl q) e =
        let (y, first, kept) = (runs x g).at s i in
        clears x s q g i (
          for_each_in-Avoids xs (f x s).1 gs kept
            (subst (λ v. Exists P (t.rows v)) (for_each-store x xs s g gs i) e))
    for_each_in-clears Q clears (x ∷ xs) s (g, gs) i (inr q) e =
        let (y, first, kept) = (runs x g).at s i in
        for_each_in-clears Q clears xs (f x s).1 gs kept q
          (subst (λ v. Exists P (t.rows v)) (for_each-store x xs s g gs i) e)

-- A loop gives one result for each element.
pub for_each-length {ℓ} :
    {A : Type 0} {B : Type ℓ} (f : A → M B) (xs : List A) {s u : Store} {ys : List B}
    → Ends (for_each f xs) s ys u
    → length ys ≡ length xs
unfolding for_each
for_each-length f [] e = ap length (sym (return-Ends e).0)
for_each-length f (x ∷ xs) e =
    let (y, v, first, e1) = bind-Ends e in
    let (zs, w, rest, e2) = bind-Ends e1 in
    ap length (sym (return-Ends e2).0) ∙ ap suc (for_each-length f xs rest)
