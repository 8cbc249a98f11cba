-- ===== src/Orders/Asked.antt =====
-- Which past orders the replay asks for.
use bazos.Base.{
  ℕ, ◌≡◌, Option, none, some, List, [], ◌∷◌, true, arith, ◌≤◌, Exists, codes, any, any-eq-true_iff,
  &&-eq-true, ==-iff, ◌==◌, codes_eq,
}
use bazos.Store.{BazosOrder}
use bazos.Orders.Replay.{is_replayed, is_from, is_to}

-- The text is one of those.
abbrev IsOneOf : List (List ℕ) → List ℕ → Type 0
IsOneOf texts text = Exists (λ t. t ≡ text) texts

-- The time is not before, or not after, the limit that is given.
abbrev pub IsFrom : Option ℕ → ℕ → Type 0
IsFrom none at = Unit
IsFrom (some t) at = t ≤ at

abbrev pub IsTo : Option ℕ → ℕ → Type 0
IsTo none at = Unit
IsTo (some t) at = at ≤ t

abbrev pub paid_texts : List (List ℕ)
paid_texts = codes "paid" ∷ codes "completed" ∷ codes "confirmed" ∷ []

abbrev pub placed_texts : List (List ℕ)
placed_texts =
    codes "paid"
    ∷ codes "confirmed"
    ∷ codes "processing"
    ∷ codes "shipped"
    ∷ codes "delivered"
    ∷ codes "completed"
    ∷ codes "fulfilled"
    ∷ []

-- The order is paid, its status is one of those that follow, and it was made between the dates.
pub record IsAsked (from to : Option ℕ) (o : BazosOrder) : Type 0 where
  pub is_paid : IsOneOf paid_texts o.payment_status
  pub is_placed : IsOneOf placed_texts o.status
  pub is_from : IsFrom from o.created_at
  pub is_to : IsTo to o.created_at

one_of :
    (texts : List (List ℕ)) (text : List ℕ) → any (λ t. t == text) texts ≡ true → IsOneOf texts text
one_of texts text e =
    (any-eq-true_iff (λ t. t ≡ text) (λ t. t == text) (λ t. ==-iff t text) texts).0 e

pub is_replayed-IsAsked :
    (from to : Option ℕ) (o : BazosOrder) → is_replayed from to o ≡ true → IsAsked from to o
unfolding is_replayed
is_replayed-IsAsked from to o e =
    let (paid, rest) = &&-eq-true _ _ e in
    let (placed, dates) = &&-eq-true _ _ rest in
    let (early, late) = &&-eq-true _ _ dates in
    record {
      is_paid = one_of paid_texts o.payment_status paid;
      is_placed = one_of placed_texts o.status placed;
      is_from = from_lem from early;
      is_to = to_lem to late;
    }
  where
    from_lem : (t : Option ℕ) → is_from t o.created_at ≡ true → IsFrom t o.created_at
    from_lem none e = tt
    from_lem (some t) e = ground arith

    to_lem : (t : Option ℕ) → is_to t o.created_at ≡ true → IsTo t o.created_at
    to_lem none e = tt
    to_lem (some t) e = ground arith
