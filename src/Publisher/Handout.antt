-- ===== src/Publisher/Handout.antt =====
-- `claimNext` hands out only attempts that are due, permitted and the user's.
use bazos.Base.{
  ℕ, ◌≡◌, sym, subst, Option, none, some, List, Bool, true, Exists, String, arith, any,
  any-eq-true_iff, &&-eq-true, Exists-map, Exists-take, Exists-sort_by, Exists-select,
  Exists-weaken, ◌==◌, nat_eq, string_eq, option_eq, ==-iff, select,
}
use bazos.Store.{Store, BazosIdentity, BazosPublishAttempt, AttemptStatus, attempt_status_eq}
use bazos.Store.Runs.{Ends, bind-Ends, ok_inj}
use bazos.Policy.Permitted.{HasPassed}
use bazos.Publisher.Options.{SubmissionPacket}
use bazos.Publisher.Queue.{PublisherEnv}
use bazos.Publisher.Claim.{
  ClaimBazosPublishDto, claimed, claim_next, claim_first, find_due, due_attempts, is_claimable,
  is_due, identity_ids_for_user, limit_or, precedes, ad_of,
}
use bazos.Publisher.Claimed.{IsFit, Fits, claim_first-Ends}

-- The attempt is in the queue, its time has come, and its identity is the user's.
pub record IsClaimable (now : ℕ) (user_id : String) (s : Store) (a : BazosPublishAttempt)
    : Type 0 where
  pub is_queued : a.status ≡ AttemptStatus.queued
  pub is_timely : HasPassed now a.not_before
  pub is_owned :
      Exists
        (λ (i : BazosIdentity). (i.user_id ≡ some user_id) × (i.id ≡ a.identity_id))
        s.identities

owned :
    (user_id : String) (identities : List BazosIdentity) (id : ℕ)
    → any (λ k. k == id) (identity_ids_for_user user_id identities) ≡ true
    → Exists (λ (i : BazosIdentity). (i.user_id ≡ some user_id) × (i.id ≡ id)) identities
unfolding identity_ids_for_user
owned user_id identities id e =
    let mine : BazosIdentity → Bool = λ i. i.user_id == some user_id in
    let found = (any-eq-true_iff (λ k. k ≡ id) (λ k. k == id) (λ k. ==-iff k id) _).0 e in
    Exists-weaken _ (λ i h. ((==-iff _ _).0 (h.0), h.1)) identities
      (Exists-select (λ (i : BazosIdentity). i.id ≡ id) mine identities
        (Exists-map (λ k. k ≡ id) (λ (i : BazosIdentity). i.id) (select mine identities) found))

is_due-HasPassed : (now : ℕ) (o : Option ℕ) → is_due now o ≡ true → HasPassed now o
is_due-HasPassed now none e = tt
is_due-HasPassed now (some t) e = ground arith

is_claimable-IsClaimable :
    (now : ℕ) (user_id : String) (s : Store) (a : BazosPublishAttempt)
    → is_claimable now user_id s.identities a ≡ true
    → IsClaimable now user_id s a
unfolding is_claimable
is_claimable-IsClaimable now user_id s a e =
    let (of_user, ready) = &&-eq-true _ _ e in
    let (in_queue, due) = &&-eq-true _ _ ready in
    record {
      is_queued = (==-iff _ _).0 in_queue;
      is_timely = is_due-HasPassed now a.not_before due;
      is_owned = owned user_id s.identities a.identity_id of_user;
    }

-- An attempt that the user is handed was queued before, due, and of one of the user's identities.
-- Its ad was active, every attempt of its identity that was being submitted had its identifier, and
-- the policy allowed the publication, asked again at the time of the claim about that ad: under its
-- identity, in its category, for its product, and with the evidence that came with the claim.
pub claim_next-IsFit :
    (env : PublisherEnv) (user_id : String) (dto : ClaimBazosPublishDto) (s u : Store)
    (attempt : BazosPublishAttempt) (packet : SubmissionPacket)
    → Ends (claim_next env user_id dto) s (claimed attempt packet) u
    → Exists
        (λ a. IsClaimable env.policy.now user_id s a × IsFit env dto s attempt a (ad_of s a))
        s.attempts
unfolding claim_next find_due due_attempts
claim_next-IsFit env user_id dto s u attempt packet e =
    let (l, t, looked, e1) = bind-Ends e in
    let fit : BazosPublishAttempt → Type 0 = λ a. IsFit env dto s attempt a (ad_of s a) in
    let found : Exists (Fits env dto s attempt) l = claim_first-Ends env dto l (
      subst (λ v. Ends (claim_first env dto l) v (claimed attempt packet) u) (sym looked.store)
        e1) in
    let due = subst (Exists (Fits env dto s attempt)) (sym (ok_inj looked.value)) found in
    Exists-weaken _ (λ a h. (is_claimable-IsClaimable env.policy.now user_id s a (h.0), h.1))
      s.attempts
      (Exists-select fit (is_claimable env.policy.now user_id s.identities) s.attempts (
        Exists-sort_by fit precedes _ (
          Exists-take fit (limit_or 5 dto.limit) _
            (Exists-map (Fits env dto s attempt) (λ a. (a, ad_of s a)) _ due))))
