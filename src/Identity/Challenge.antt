-- ===== src/Identity/Challenge.antt =====
-- A challenge stops the publications of its identity.
use bazos.Base.{
  List, ℕ, ◌≡◌, ◌≢◌, refl, sym, ◌∙◌, ap, inl, inr, Option, none, some, false, String, arith,
  update_where, ◌==◌, nat_eq, Bool-cases, Option-cases, some_inj,
}
use mathlib.Core.Option
use bazos.Store.{Store, BazosIdentity, ReviewState, clear, ok, ◌>>=◌, by_key}
use bazos.Store.Keys.{by_key-update_self}
use bazos.Policy.{evaluate}
use bazos.Policy.Input.{PolicyEnv, PolicyCheckInput}
use bazos.Policy.Refinement.{evaluate-MayPublish_iff}
use bazos.Identity.Input.{MarkChallengeDto}
use bazos.Identity.Record.{mark_challenge, challenged}

-- The rows of the identities after a challenge that is accepted.
mark_challenge_ok :
    (id : ℕ) (user_id : String) (dto : MarkChallengeDto) (s : Store) (i : BazosIdentity)
    → (mark_challenge id user_id dto s).0 ≡ ok i
    → (q : ReviewState) × (dto.challenge_state ≡ some q)
      × (q ≢ clear)
      × ((mark_challenge id user_id dto s).1.identities
          ≡ update_where (λ x. x.id == id) (challenged q dto.notes) s.identities)
unfolding mark_challenge ◌>>=◌
mark_challenge_ok id user_id dto s i e = elim (Option-cases dto.challenge_state) [
  | inl none_given ↦ absurd (ground arith)
  | inr (q, given) ↦ (q, given, ground arith, ground arith)
]

-- A row that is read by its key and is not cleared stops every publication of its identity.
pub unclear-evaluate_refused :
    (env : PolicyEnv) (s : Store) (input : PolicyCheckInput)
    → ((i : BazosIdentity)
        → by_key (λ x. x.id) input.identity_id s.identities ≡ some i
        → i.review_state ≢ clear)
    → (evaluate env s input).allowed ≡ false
unclear-evaluate_refused env s input h = elim (Bool-cases (evaluate env s input).allowed) [
  | inl allowed ↦
      let (i, found, may) = (evaluate-MayPublish_iff env s input).0 allowed in
      absurd (h i found may.is_clear)
  | inr denied ↦ denied
]

changed-not_clear :
    (f : BazosIdentity → BazosIdentity) (o : Option BazosIdentity) (i : BazosIdentity)
    → ((x : BazosIdentity) → (f x).review_state ≢ clear)
    → Option.map f o ≡ some i
    → i.review_state ≢ clear
unfolding Option.map
changed-not_clear f none i h e = cc
changed-not_clear f (some x) i h e =
    λ c. h x (ap (λ (y : BazosIdentity). y.review_state) (some_inj e) ∙ c)

-- A change of the rows of an identity that leaves them not cleared stops its publications.
pub unclear_change-evaluate_refused :
    (k : ℕ) (f : BazosIdentity → BazosIdentity) (rows : List BazosIdentity) (u : Store)
    (env : PolicyEnv) (input : PolicyCheckInput)
    → update_where (λ x. x.id == k) f rows ≡ u.identities
    → ((x : BazosIdentity) → (f x).review_state ≢ clear)
    → ((x : BazosIdentity) → (f x).id ≡ x.id)
    → input.identity_id ≡ k
    → (evaluate env u input).allowed ≡ false
unclear_change-evaluate_refused k f rows u env input written unclear keeps same =
    unclear-evaluate_refused env u input λ j found.
      changed-not_clear f (by_key (λ x. x.id) k rows) j unclear (
        sym (by_key-update_self (λ x. x.id) f keeps k rows)
        ∙ (ap (by_key (λ x. x.id) k) written
            ∙ (ap (λ n. by_key (λ x. x.id) n u.identities) (sym same) ∙ found)))

-- After a challenge is accepted for an identity, no publication of that identity is allowed,
-- whatever the clock, the clients and the evidence say.
pub mark_challenge-evaluate_refused :
    (id : ℕ) (user_id : String) (dto : MarkChallengeDto) (s : Store) (i : BazosIdentity)
    (env : PolicyEnv) (input : PolicyCheckInput)
    → (mark_challenge id user_id dto s).0 ≡ ok i
    → input.identity_id ≡ id
    → (evaluate env (mark_challenge id user_id dto s).1 input).allowed ≡ false
mark_challenge-evaluate_refused id user_id dto s i env input accepted same =
    let (q, given, unclear, rows) = mark_challenge_ok id user_id dto s i accepted in
    unclear_change-evaluate_refused id (challenged q dto.notes) s.identities
      (mark_challenge id user_id dto s).1 env input (sym rows) (λ x. unclear) (λ x. refl) same
