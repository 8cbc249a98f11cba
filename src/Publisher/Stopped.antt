-- ===== src/Publisher/Stopped.antt =====
-- A challenge that is met while an attempt is submitted stops its identity.
use bazos.Base.{ℕ, ◌≡◌, ◌≢◌, refl, sym, ap, ◌∙◌, Option, true, false, inl, inr, String, arith, ◌==◌}
use bazos.Store.{
  Store, BazosAd, BazosPublishAttempt, ReviewState, clear, review_state_eq, throw, bazos_identity,
}
use bazos.Store.Runs.{Ends, bind-Ends, return-Ends, update-Ends, if_Ends, err-ne_ok, ok_inj}
use bazos.Policy.{evaluate}
use bazos.Policy.Input.{PolicyEnv, PolicyCheckInput}
use bazos.Identity.Challenge.{unclear_change-evaluate_refused}
use bazos.Publisher.Claim.{find_attempt_for_user}
use bazos.Publisher.Record.{
  RecordBazosPublishResultDto, ChallengeInput, not_given, unknown, given, assert_challenge_given,
  is_challenge_given, record_challenge_result, record_by_kind, record_result,
}

assert_challenge_given-Ends :
    (o : ChallengeInput) {s t : Store} {r : ReviewState}
    → Ends (assert_challenge_given o) s r t
    → r ≢ clear
unfolding throw
assert_challenge_given-Ends not_given e = absurd (err-ne_ok e.value)
assert_challenge_given-Ends unknown e = absurd (err-ne_ok e.value)
assert_challenge_given-Ends (given q) {r} e = elim (if_Ends (q == clear) e) [
  | inl (_, thrown) ↦ absurd (err-ne_ok thrown.value)
  | inr (unclear, returned) ↦
      let same = (return-Ends returned).0 in λ c. ground (arith, unclear, same, c)
]

module _ (now : ℕ) (dto : RecordBazosPublishResultDto) (env : PolicyEnv)
    (input : PolicyCheckInput) where
  record_challenge_result-refused :
      (a : BazosPublishAttempt) (o : Option BazosAd) {s u : Store} {b : BazosPublishAttempt}
      → Ends (record_challenge_result now a o dto) s b u
      → input.identity_id ≡ a.identity_id
      → (evaluate env u input).allowed ≡ false
  unfolding record_challenge_result
  record_challenge_result-refused a o {u} e it =
      let (r, _, asserted, e1) = bind-Ends e in
      let (_, _, _, e2) = bind-Ends e1 in
      let (_, t, _, e3) = bind-Ends e2 in
      let (_, _, updated, e4) = bind-Ends e3 in
      let (_, _, _, written) = update-Ends bazos_identity a.identity_id _ updated in
      unclear_change-evaluate_refused a.identity_id _ t.identities u env input
        (ap (λ (v : Store). v.identities) (written ∙ (return-Ends e4).1))
        (λ x. assert_challenge_given-Ends dto.challenge_state asserted) (λ x. refl) it

  record_by_kind-refused :
      (a : BazosPublishAttempt) (o : Option BazosAd) {s u : Store} {b : BazosPublishAttempt}
      → Ends (record_by_kind now a o dto) s b u
      → dto.success ≡ false
      → is_challenge_given dto.challenge_state ≡ true
      → input.identity_id ≡ a.identity_id
      → (evaluate env u input).allowed ≡ false
  record_by_kind-refused a o e failed met it = elim (if_Ends dto.success e) [
    | inl (succeeded, _) ↦ absurd (cc (sym succeeded ∙ failed))
    | inr (_, e1) ↦ elim (if_Ends (is_challenge_given dto.challenge_state) e1) [
      | inl (_, e2) ↦ record_challenge_result-refused a o e2 it
      | inr (unmet, _) ↦ absurd (cc (sym met ∙ unmet))
    ]
  ]

-- After a failed result with a challenge is recorded for a user's attempt, no publication of the
-- attempt's identity is allowed.
pub record_result-challenge_refused :
    (now id : ℕ) (user_id : String) (dto : RecordBazosPublishResultDto) (a b : BazosPublishAttempt)
    (s u : Store) (env : PolicyEnv) (input : PolicyCheckInput)
    → Ends (record_result now id user_id dto) s b u
    → Ends (find_attempt_for_user id user_id) s a s
    → dto.success ≡ false
    → is_challenge_given dto.challenge_state ≡ true
    → input.identity_id ≡ a.identity_id
    → (evaluate env u input).allowed ≡ false
unfolding record_result
record_result-challenge_refused now id user_id dto a b s u env input e mine failed met it =
    let (x, _, found, e1) = bind-Ends e in
    let (o, _, _, e2) = bind-Ends e1 in
    let (_, _, _, e3) = bind-Ends e2 in
    let (_, _, _, e4) = bind-Ends e3 in
    let same : x ≡ a = ok_inj (sym found.value ∙ mine.value) in
    record_by_kind-refused now dto env input x o e4 failed met
      (it ∙ ap (λ (y : BazosPublishAttempt). y.identity_id) (sym same))
