-- ===== src/Orders/Several.antt =====
-- When a list of texts has two that differ: `new Set(texts).size < 2`.
use bazos.Base.{
  ℕ, ◌≡◌, ◌≢◌, refl, sym, ap, ◌∙◌, subst, List, [], ◌∷◌, length, Bool, true, false, any, ◌==◌,
  codes_eq, inl, inr, Bool-cases, ==-iff, arith, ◌≤◌, Exists, All, any-eq-true_iff, All-Exists,
}
use bazos.Orders.Replay.{distinct_codes}

-- The text `x` stands among `xs`.
abbrev occurs : List ℕ → List (List ℕ) → Bool
occurs x xs = any (λ y. y == x) xs

distinct-twice :
    (x : List ℕ) (xs : List (List ℕ))
    → occurs x (distinct_codes xs) ≡ true
    → distinct_codes (x ∷ xs) ≡ distinct_codes xs
unfolding distinct_codes
distinct-twice x xs e = rw e refl

distinct-once :
    (x : List ℕ) (xs : List (List ℕ))
    → occurs x (distinct_codes xs) ≡ false
    → distinct_codes (x ∷ xs) ≡ x ∷ distinct_codes xs
unfolding distinct_codes
distinct-once x xs e = rw e refl

occurs-distinct : (x : List ℕ) (xs : List (List ℕ)) → occurs x (distinct_codes (x ∷ xs)) ≡ true
unfolding any
occurs-distinct x xs = elim (Bool-cases (occurs x (distinct_codes xs))) [
  | inl twice ↦ rw (distinct-twice x xs twice) twice
  | inr once ↦ rw (distinct-once x xs once, (==-iff x x).1 refl) refl
]

differs :
    (p : List ℕ) (xs : List (List ℕ))
    → 1 ≤ length (distinct_codes xs)
    → occurs p (distinct_codes xs) ≡ false
    → Exists (λ x. x ≢ p) xs
unfolding distinct_codes
differs p [] some_left none_same = absurd (omega (arith, some_left))
differs p (x ∷ xs) some_left none_same = inl (λ e.
    let same : occurs p (distinct_codes (x ∷ xs)) ≡ true =
      subst (λ q. occurs q (distinct_codes (x ∷ xs)) ≡ true) e (occurs-distinct x xs) in
    cc)

head_or_rest :
    (p x : List ℕ) (xs : List (List ℕ))
    → 2 ≤ length (distinct_codes (x ∷ xs))
    → occurs x (distinct_codes xs) ≡ false
    → Exists (λ y. y ≢ p) (x ∷ xs)
head_or_rest p x xs two once = elim (Bool-cases (x == p)) [
  | inl same ↦ inr (
      differs p xs (omega (arith, two, ap length (distinct-once x xs once)))
        (subst (λ q. occurs q (distinct_codes xs) ≡ false) ((==-iff x p).0 same) once))
  | inr other ↦ inl (λ e. let same : (x == p) ≡ true = (==-iff x p).1 e in cc)
]

pub two_differ :
    (p : List ℕ) (xs : List (List ℕ)) → 2 ≤ length (distinct_codes xs) → Exists (λ x. x ≢ p) xs
unfolding distinct_codes
two_differ p [] two = absurd (omega (arith, two))
two_differ p (x ∷ xs) two = elim (Bool-cases (occurs x (distinct_codes xs))) [
  | inl twice ↦ inr (two_differ p xs (omega (arith, two, ap length (distinct-twice x xs twice))))
  | inr once ↦ head_or_rest p x xs two once
]

-- No text stands alone: for each one there is another.
abbrev pub HasTwo : List (List ℕ) → Type 0
HasTwo xs = (p : List ℕ) → Exists (λ x. x ≢ p) xs

distinct-All :
    (p : List ℕ) (xs : List (List ℕ)) → All (λ x. x ≡ p) xs → All (λ x. x ≡ p) (distinct_codes xs)
unfolding distinct_codes
distinct-All p [] h = h
distinct-All p (x ∷ xs) (h, hs) = elim (Bool-cases (occurs x (distinct_codes xs))) [
  | inl twice ↦ rw (distinct-twice x xs twice) (distinct-All p xs hs)
  | inr once ↦ rw (distinct-once x xs once) (h, distinct-All p xs hs)
]

not_empty : (x : List ℕ) (ys : List (List ℕ)) → occurs x ys ≡ true → 1 ≤ length ys
unfolding any
not_empty x [] e = absurd (cc e)
not_empty x (y ∷ ys) e = omega arith

some_distinct : (x : List ℕ) (xs : List (List ℕ)) → 1 ≤ length (distinct_codes (x ∷ xs))
some_distinct x xs = not_empty x (distinct_codes (x ∷ xs)) (occurs-distinct x xs)

-- With fewer than two texts left, all are one.
one_text :
    (xs : List (List ℕ)) → length (distinct_codes xs) ≤ 1 → (p : List ℕ) × All (λ x. x ≡ p) xs
one_text [] few = ([], tt)
one_text (x ∷ []) few = (x, (refl, tt))
one_text (x ∷ y ∷ xs) few = elim (Bool-cases (occurs x (distinct_codes (y ∷ xs)))) [
  | inl twice ↦
      let (p, all) =
        one_text (y ∷ xs) (omega (arith, few, ap length (distinct-twice x (y ∷ xs) twice))) in
      let (z, same, is_x) =
        All-Exists (λ z. z ≡ p) (λ z. z ≡ x) (distinct_codes (y ∷ xs)) (distinct-All p (y ∷ xs) all)
          ((any-eq-true_iff (λ z. z ≡ x) (λ z. z == x) (λ z. ==-iff z x)
              (distinct_codes (y ∷ xs))).0
            twice) in
      (p, (sym is_x ∙ same, all))
  | inr once ↦
      absurd (omega (arith, few, ap length (distinct-once x (y ∷ xs) once), some_distinct y xs))
]

pub few-HasTwo : (xs : List (List ℕ)) → length (distinct_codes xs) ≤ 1 → ¬ HasTwo xs
few-HasTwo xs few two =
    let (p, all) = one_text xs few in
    let (x, same, other) = All-Exists (λ x. x ≡ p) (λ x. x ≢ p) xs all (two p) in other same
