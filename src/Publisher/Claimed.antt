-- ===== src/Publisher/Claimed.antt =====
-- What holds of an attempt that `claimNext` hands out.
use bazos.Base.{
  ◌≡◌, refl, sym, ap, ◌∙◌, subst, Option, none, some, List, [], ◌∷◌, Bool, true, false, inl, inr,
  ◌⊎◌, Exists, All, Bool-cases, All-weaken, find_first-eq-none, true-ne_false, ==-iff, ◌==◌,
  find_first, nat_eq, option_eq, if◌then◌else◌,
}
use bazos.Store.{
  Store, BazosAd, BazosPublishAttempt, PolicyCheck, submitting, bazos_publish_attempt,
  attempt_status_eq, M, find_where,
}
use bazos.Store.Runs.{
  Ends, bind-Ends, return-Ends, find_where-Ends, update-Ends, by_key-key, ok_inj, if_Ends,
}
use bazos.Policy.{evaluate}
use bazos.Gate.{PolicyEvaluationResult}
use bazos.Policy.Input.{PolicyCheckInput, PolicyEnv, Evidence}
use bazos.Publisher.Options.{SubmissionPacket}
use bazos.Publisher.Asked.{IsAskedOf, policy_input-Ends}
use bazos.Publisher.Queue.{PublisherEnv, evaluate_ad_policy, consult}
use bazos.Publisher.Claim.{
  ClaimBazosPublishDto, Claimed, claimed, not_allowed, no_due_attempts, claim_attempt,
  reject_attempt, recheck, consider, claim_unless_busy, claim_first, is_in_flight_beside,
}

abbrev attempt_of : BazosPublishAttempt → Claimed → BazosPublishAttempt
attempt_of a (claimed attempt packet) = attempt
attempt_of a (not_allowed check) = a
attempt_of a no_due_attempts = a

abbrev IsClaimed : Claimed → Type 0
IsClaimed (claimed attempt packet) = Unit
IsClaimed (not_allowed check) = ⊥
IsClaimed no_due_attempts = ⊥

evaluate_ad_policy-Ends :
    (env : PolicyEnv) (ad : BazosAd) (duplicate content : Option Evidence) {s t : Store}
    {result : PolicyEvaluationResult}
    → Ends (evaluate_ad_policy env ad duplicate content) s result t
    → (input : PolicyCheckInput) × IsAskedOf ad duplicate content input
      × (evaluate env s input ≡ result)
unfolding evaluate_ad_policy consult
evaluate_ad_policy-Ends env ad duplicate content {s} {t} e =
    let (input, u, given, consulted) = bind-Ends e in
    let (asked, kept) = policy_input-Ends ad duplicate content given in
    (input, asked, ap (λ v. evaluate env v input) kept ∙ ok_inj consulted.value)

-- The attempt `a` of a store, with its ad, seen to be fit to be handed out as `attempt`.
pub record IsFit (env : PublisherEnv) (dto : ClaimBazosPublishDto) (s : Store)
    (attempt a : BazosPublishAttempt) (o : Option BazosAd) : Type 0 where
  pub ad : BazosAd
  pub input : PolicyCheckInput
  pub has_ad : o ≡ some ad
  pub is_asked : IsAskedOf ad dto.public_duplicate_check dto.content_policy input
  pub is_active : ad.is_active ≡ true
  pub is_alone :
      All
        (λ (b : BazosPublishAttempt).
          b.identity_id ≡ a.identity_id → b.status ≡ submitting → b.id ≡ a.id)
        s.attempts
  pub is_permitted : (evaluate env.policy s input).allowed ≡ true
  pub is_handed_out : attempt.id ≡ a.id
  pub is_submitting : attempt.status ≡ submitting

abbrev pub Fits :
    PublisherEnv
    → ClaimBazosPublishDto
    → Store
    → BazosPublishAttempt
    → BazosPublishAttempt × Option BazosAd
    → Type 0
Fits env dto s attempt p = IsFit env dto s attempt p.0 p.1

not_beside :
    (a b : BazosPublishAttempt)
    → b.identity_id ≡ a.identity_id
    → b.status ≡ submitting
    → is_in_flight_beside a b ≡ false
    → b.id ≡ a.id
not_beside a b same submitted apart = elim (Bool-cases (b.id == a.id)) [
  | inl itself ↦ (==-iff b.id a.id).0 itself
  | inr other ↦
      let beside : is_in_flight_beside a b ≡ true =
        rw
          (
            (==-iff b.identity_id a.identity_id).1 same,
            (==-iff b.status submitting).1 submitted,
            other,
          )
          refl in
      absurd (true-ne_false (sym beside ∙ apart))
]

-- If no attempt is found beside `a`, every attempt that is being submitted for its identity is `a`.
alone :
    (a : BazosPublishAttempt) (bs : List BazosPublishAttempt)
    → find_first (is_in_flight_beside a) bs ≡ none
    → All
        (λ (b : BazosPublishAttempt).
          b.identity_id ≡ a.identity_id → b.status ≡ submitting → b.id ≡ a.id)
        bs
alone a bs e =
    All-weaken _ (λ b apart same submitted. not_beside a b same submitted apart) bs
      (find_first-eq-none (is_in_flight_beside a) bs e)

module _ (env : PublisherEnv) (dto : ClaimBazosPublishDto) where
  claim_attempt-Ends :
      (a : BazosPublishAttempt) (ad : BazosAd) (check : PolicyCheck) {s u : Store}
      {attempt : BazosPublishAttempt} {packet : SubmissionPacket}
      → Ends (claim_attempt env a ad check) s (claimed attempt packet) u
      → (attempt.id ≡ a.id) × (attempt.status ≡ submitting)
  unfolding claim_attempt
  claim_attempt-Ends a ad check {s} {attempt} e =
      let (x, _, updated, e1) = bind-Ends e in
      let (_, _, _, e2) = bind-Ends e1 in
      let (_, _, _, e3) = bind-Ends e2 in
      let (_, _, _, e4) = bind-Ends e3 in
      let same : x ≡ attempt = ap (attempt_of a) (return-Ends e4).0 in
      let (r, found, changed, _) = update-Ends bazos_publish_attempt a.id _ updated in
      (
        ap (λ (y : BazosPublishAttempt). y.id) (sym (changed ∙ same))
            ∙ by_key-key (λ (y : BazosPublishAttempt). y.id) a.id s.attempts r found,
        ap (λ (y : BazosPublishAttempt). y.status) (sym (changed ∙ same)),
      )

  not_rejected :
      (a : BazosPublishAttempt) (ad : BazosAd) (check : PolicyCheck) {s u : Store}
      {attempt : BazosPublishAttempt} {packet : SubmissionPacket}
      → ¬ Ends (reject_attempt env a ad check) s (claimed attempt packet) u
  unfolding reject_attempt
  not_rejected a ad check e =
      let (_, _, _, e1) = bind-Ends e in
      let (_, _, _, e2) = bind-Ends e1 in subst IsClaimed (sym (return-Ends e2).0) tt

  decided-Ends :
      (a : BazosPublishAttempt) (ad : BazosAd) (check : PolicyCheck) (allowed : Bool) {t u : Store}
      {attempt : BazosPublishAttempt} {packet : SubmissionPacket}
      → Ends
          (if allowed then claim_attempt env a ad check else reject_attempt env a ad check)
          t
          (claimed attempt packet)
          u
      → (allowed ≡ true) × (attempt.id ≡ a.id) × (attempt.status ≡ submitting)
  decided-Ends a ad check true e =
      let (handed, submitted) = claim_attempt-Ends a ad check e in (refl, handed, submitted)
  decided-Ends a ad check false e = absurd (not_rejected a ad check e)

  recheck-Ends :
      (a : BazosPublishAttempt) (ad : BazosAd) {s u : Store} {attempt : BazosPublishAttempt}
      {packet : SubmissionPacket}
      → Ends (recheck env dto a ad) s (claimed attempt packet) u
      → ad.is_active ≡ true
      → find_first (is_in_flight_beside a) s.attempts ≡ none
      → IsFit env dto s attempt a (some ad)
  unfolding recheck
  recheck-Ends a ad {s} {attempt} e active found_none =
      let (result, t, evaluated, e1) = bind-Ends e in
      let (input, asked, same) = evaluate_ad_policy-Ends env.policy ad _ _ evaluated in
      let (allowed, handed, submitted) = decided-Ends a ad _ result.allowed e1 in
      record {
        ad = ad;
        input = input;
        has_ad = refl;
        is_asked = asked;
        is_active = active;
        is_alone = alone a s.attempts found_none;
        is_permitted = ap (λ (r : PolicyEvaluationResult). r.allowed) same ∙ allowed;
        is_handed_out = handed;
        is_submitting = submitted;
      }

  considered-Ends :
      (a : BazosPublishAttempt) (ad : BazosAd) (skip : M Claimed)
      (busy : Option BazosPublishAttempt) {s u : Store} {attempt : BazosPublishAttempt}
      {packet : SubmissionPacket}
      → Ends (claim_unless_busy busy skip (recheck env dto a ad)) s (claimed attempt packet) u
      → ad.is_active ≡ true
      → find_first (is_in_flight_beside a) s.attempts ≡ busy
      → IsFit env dto s attempt a (some ad) ⊎ Ends skip s (claimed attempt packet) u
  considered-Ends a ad skip none e active alone = inl (recheck-Ends a ad e active alone)
  considered-Ends a ad skip (some b) e active alone = inr e

  consider-Ends :
      (a : BazosPublishAttempt) (ad : BazosAd) (skip : M Claimed) {s u : Store}
      {attempt : BazosPublishAttempt} {packet : SubmissionPacket}
      → Ends (consider env dto skip a ad) s (claimed attempt packet) u
      → ad.is_active ≡ true
      → IsFit env dto s attempt a (some ad) ⊎ Ends skip s (claimed attempt packet) u
  unfolding consider find_where
  consider-Ends a ad skip {s} {u} {attempt} {packet} e active =
      let (busy, t, looked, e1) = bind-Ends e in
      let (found, kept) = find_where-Ends bazos_publish_attempt (is_in_flight_beside a) looked in
      considered-Ends a ad skip busy
        (subst
          (λ v.
            Ends (claim_unless_busy busy skip (recheck env dto a ad)) v (claimed attempt packet) u)
          (sym kept) e1)
        active found

  pub claim_first-Ends :
      (l : List (BazosPublishAttempt × Option BazosAd)) {s u : Store}
      {attempt : BazosPublishAttempt} {packet : SubmissionPacket}
      → Ends (claim_first env dto l) s (claimed attempt packet) u
      → Exists (Fits env dto s attempt) l
  unfolding claim_first
  claim_first-Ends [] e = absurd (subst IsClaimed (sym (return-Ends e).0) tt)
  claim_first-Ends ((a, none) ∷ rest) e = inr (claim_first-Ends rest e)
  claim_first-Ends ((a, some ad) ∷ rest) e = elim (if_Ends ad.is_active e) [
    | inl (active, e1) ↦ elim (consider-Ends a ad (claim_first env dto rest) e1 active) [
      | inl fit ↦ inl fit
      | inr later ↦ inr (claim_first-Ends rest later)
    ]
    | inr (idle, e1) ↦ inr (claim_first-Ends rest e1)
  ]
