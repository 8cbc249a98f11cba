-- ===== src/Ad/Laws.antt =====
-- What the operations on an ad mean for its publication.
use bazos.Base.{
  ℕ, ◌≡◌, ◌≢◌, refl, sym, ap, ◌∙◌, Option, none, some, false, Bool-cases, inl, inr, String, arith,
  some_inj, ◌==◌, nat_eq,
}
use bazos.Gate.{PolicyEvaluationResult}
use bazos.Store.{Store, BazosAd, ReviewState, clear, bazos_identity, throw, review_state_eq}
use bazos.Store.Runs.{Ends, bind-Ends, return-Ends, update-Ends, if_Ends, ok_inj, err-ne_ok}
use bazos.Policy.{evaluate}
use bazos.Policy.Input.{PolicyEnv, PolicyCheckInput}
use bazos.Policy.Refinement.{evaluate-MayPublish_iff}
use bazos.Identity.Record.{assert_challenge_state}
use bazos.Identity.Challenge.{unclear_change-evaluate_refused}
use bazos.Publisher.Queue.{consult}
use bazos.Ad.{
  find_by_id_for_user, draft_input, evaluate_publish_policy, stopped, stop_identity,
  record_challenge,
}

no_evidence-refused :
    (env : PolicyEnv) (s : Store) (ad : BazosAd) (identity_id : ℕ) (category : String)
    → (evaluate env s (draft_input ad identity_id category)).allowed ≡ false
no_evidence-refused env s ad identity_id category =
    elim (Bool-cases (evaluate env s (draft_input ad identity_id category)).allowed) [
      | inl allowed ↦
          let (i, _, may) =
            (evaluate-MayPublish_iff env s (draft_input ad identity_id category)).0 allowed in
          absurd may.no_public_duplicate
      | inr denied ↦ denied
    ]

-- The check of a draft never answers that the draft may be published, whatever the ad and the
-- store.
pub evaluate_publish_policy-refused :
    (env : PolicyEnv) (id : ℕ) (user_id : String) (s u : Store) (result : PolicyEvaluationResult)
    → Ends (evaluate_publish_policy env id user_id) s result u
    → result.allowed ≡ false
unfolding evaluate_publish_policy consult
evaluate_publish_policy-refused env id user_id s u result e =
    let (ad, _, _, e1) = bind-Ends e in
    let (identity_id, _, _, e2) = bind-Ends e1 in
    let (_, _, _, e3) = bind-Ends e2 in
    let (category, t, _, e4) = bind-Ends e3 in
    let (r, _, consulted, e5) = bind-Ends e4 in
    let (_, _, _, e6) = bind-Ends e5 in
    ap (λ (x : PolicyEvaluationResult). x.allowed)
      (sym (ok_inj consulted.value ∙ (return-Ends e6).0))
    ∙ no_evidence-refused env t ad identity_id category

assert_challenge_state-Ends :
    (o : Option ReviewState) {s t : Store} {r : ReviewState}
    → Ends (assert_challenge_state o) s r t
    → (r ≢ clear) × (s ≡ t)
unfolding throw
assert_challenge_state-Ends none e = absurd (err-ne_ok e.value)
assert_challenge_state-Ends (some q) {r} e = elim (if_Ends (q == clear) e) [
  | inl (_, thrown) ↦ absurd (err-ne_ok thrown.value)
  | inr (unclear, returned) ↦
      let (same, kept) = return-Ends returned in ((λ c. ground (arith, unclear, same, c)), kept)
]

stop_identity-refused :
    (r : ReviewState) (o : Option ℕ) (k : ℕ) (env : PolicyEnv) (input : PolicyCheckInput)
    {s u : Store} {x : Unit {0}}
    → Ends (stop_identity r o) s x u
    → r ≢ clear
    → o ≡ some k
    → input.identity_id ≡ k
    → (evaluate env u input).allowed ≡ false
stop_identity-refused r none k env input e unclear same it = absurd (cc same)
stop_identity-refused r (some id) k env input {s} {u} e unclear same it =
    let (_, _, updated, e1) = bind-Ends e in
    let (_, _, _, written) = update-Ends bazos_identity id (stopped r) updated in
    let rows = ap (λ (v : Store). v.identities) (written ∙ (return-Ends e1).1) in
    unclear_change-evaluate_refused id (stopped r) s.identities u env input rows (λ x. unclear)
      (λ x. refl) (it ∙ sym (some_inj same))

-- After a challenge is recorded on a user's ad, no publication of the ad's identity is allowed.
pub record_challenge-evaluate_refused :
    (id : ℕ) (user_id : String) (challenge_state : Option ReviewState) (ad : BazosAd) (k : ℕ)
    (s u : Store) (env : PolicyEnv) (input : PolicyCheckInput)
    → Ends (record_challenge id user_id challenge_state) s tt u
    → Ends (find_by_id_for_user id user_id) s ad s
    → ad.identity_id ≡ some k
    → input.identity_id ≡ k
    → (evaluate env u input).allowed ≡ false
unfolding record_challenge
record_challenge-evaluate_refused id user_id challenge_state ad k s u env input e mine of_identity
      it =
    let (r, t, asserted, e1) = bind-Ends e in
    let (x, _, found, e2) = bind-Ends e1 in
    let (_, _, _, e3) = bind-Ends e2 in
    let (unclear, kept) = assert_challenge_state-Ends challenge_state asserted in
    let same : x ≡ ad = ok_inj (
      sym found.value ∙ (ap (λ v. (find_by_id_for_user id user_id v).0) (sym kept) ∙ mine.value)) in
    stop_identity-refused r x.identity_id k env input e3 unclear
      (ap (λ (y : BazosAd). y.identity_id) same ∙ of_identity) it
