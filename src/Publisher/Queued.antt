-- ===== src/Publisher/Queued.antt =====
-- What `enqueueDraft` puts into the queue.
use bazos.Base.{
  ℕ, ◌+◌, ◌*◌, ◌<◌, ◌≤◌, ◌≡◌, refl, sym, ap, ◌∙◌, subst, Option, none, some, true, inl, inr, Exists,
  String, arith, nat_eq,
}
use bazos.Gate.{PolicyEvaluationResult}
use bazos.Store.{
  Store, BazosAd, BazosPublishAttempt, PolicyCheck, AttemptStatus, bazos_publish_attempt,
}
use bazos.Store.Runs.{Ends, bind-Ends, return-Ends, throw_if-Ends, if_Ends, create-Ends, ok_inj}
use bazos.Policy.{evaluate}
use bazos.Policy.Input.{PolicyEnv, PolicyCheckInput}
use bazos.Policy.Refinement.{evaluate-delay}
use bazos.Publisher.Queue.{
  PublisherEnv, EnqueueBazosPublishDto, Enqueued, already, blocked, queued,
  assert_publishable_draft, find_newest, enqueue_unless, enqueue_new, queue_attempt, block_attempt,
  queued_attempt, due_time, consult, enqueue_draft, seconds,
}
use bazos.Publisher.Asked.{IsAskedOf, IsOwned, policy_input-Ends, find_ad_for_user-Ends}

abbrev IsQueued : Enqueued → Type 0
IsQueued (queued a check) = Unit
IsQueued (blocked a check) = ⊥
IsQueued (already a) = ⊥

abbrev attempt_of : Enqueued → BazosPublishAttempt
attempt_of (queued a check) = a
attempt_of (blocked a check) = a
attempt_of (already a) = a

assert_publishable_draft-Ends :
    (ad : BazosAd) {s t : Store} {x : Unit {0}}
    → Ends (assert_publishable_draft ad) s x t
    → (ad.is_active ≡ true) × (s ≡ t)
unfolding assert_publishable_draft
assert_publishable_draft-Ends ad e =
    let (_, _, first, e1) = bind-Ends e in
    let (_, _, second, e2) = bind-Ends e1 in
    let (_, _, third, e3) = bind-Ends e2 in
    let (idle, kept) = throw_if-Ends _ _ e3 in
    (
      ground (arith, idle),
      (throw_if-Ends _ _ first).1
          ∙ ((throw_if-Ends _ _ second).1 ∙ ((throw_if-Ends _ _ third).1 ∙ kept)),
    )

module _ (env : PublisherEnv) (ad : BazosAd) where
  queue_attempt-Ends :
      (id : ℕ) (result : PolicyEvaluationResult) (check c : PolicyCheck) {s u : Store}
      {a : BazosPublishAttempt}
      → Ends (queue_attempt env ad id result check) s (queued a c) u
      → (n : ℕ) × (queued_attempt env.policy.now ad id check (due_time result) n ≡ a)
  unfolding queue_attempt
  queue_attempt-Ends id result check c e =
      let (_, t, _, e1) = bind-Ends e in
      let (x, _, made, e2) = bind-Ends e1 in
      let (_, _, _, e3) = bind-Ends e2 in
      (t.next_id, create-Ends bazos_publish_attempt _ made ∙ ap attempt_of (return-Ends e3).0)

  block_attempt-Ends :
      (id : ℕ) (check c : PolicyCheck) {s u : Store} {a : BazosPublishAttempt}
      → ¬ Ends (block_attempt env ad id check) s (queued a c) u
  unfolding block_attempt
  block_attempt-Ends id check c e =
      let (_, _, _, e1) = bind-Ends e in subst IsQueued (sym (return-Ends e1).0) tt

  -- The policy is asked about the ad in `s`, and allows it; the attempt is then put into the queue.
  IsAdmitted : EnqueueBazosPublishDto → Store → BazosPublishAttempt → Type 0
  IsAdmitted dto s a =
      (input : PolicyCheckInput) × IsAskedOf ad dto.public_duplicate_check dto.content_policy input
      × ((evaluate env.policy s input).allowed ≡ true)
      × (a.ad_id ≡ some ad.id)
      × (a.identity_id ≡ input.identity_id)
      × (a.status ≡ AttemptStatus.queued)
      × (a.not_before ≡ some (due_time (evaluate env.policy s input)))

  enqueue_new-Ends :
      (dto : EnqueueBazosPublishDto) (c : PolicyCheck) {s u : Store} {a : BazosPublishAttempt}
      → Ends (enqueue_new env ad dto) s (queued a c) u
      → IsAdmitted dto s a
  unfolding enqueue_new consult IsAdmitted
  enqueue_new-Ends dto c {s} {u} {a} e =
      let (input, t, given, e1) = bind-Ends e in
      let (asked, kept) = policy_input-Ends ad _ _ given in
      let (result, t1, consulted, e2) = bind-Ends e1 in
      let same : evaluate env.policy s input ≡ result =
        ap (λ v. evaluate env.policy v input) kept ∙ ok_inj consulted.value in
      let (_, _, _, e3) = bind-Ends e2 in
      elim (if_Ends result.allowed e3) [
        | inl (allowed, e4) ↦
            let (n, made) = queue_attempt-Ends input.identity_id result _ c e4 in
            (
              input,
              asked,
              ap (λ (r : PolicyEvaluationResult). r.allowed) same ∙ allowed,
              ap (λ (x : BazosPublishAttempt). x.ad_id) (sym made),
              ap (λ (x : BazosPublishAttempt). x.identity_id) (sym made),
              ap (λ (x : BazosPublishAttempt). x.status) (sym made),
              ap (λ (x : BazosPublishAttempt). x.not_before) (sym made)
                  ∙ ap (λ r. some (due_time r)) (sym same),
            )
        | inr (_, e4) ↦ absurd (block_attempt-Ends input.identity_id _ c e4)
      ]

  enqueue_unless-Ends :
      (dto : EnqueueBazosPublishDto) (c : PolicyCheck) (o : Option BazosPublishAttempt)
      {s u : Store} {a : BazosPublishAttempt}
      → Ends (enqueue_unless env ad dto o) s (queued a c) u
      → IsAdmitted dto s a
  enqueue_unless-Ends dto c none e = enqueue_new-Ends dto c e
  enqueue_unless-Ends dto c (some x) e = absurd (subst IsQueued (sym (return-Ends e).0) tt)

abbrev FindsAd : ℕ → String → Store → BazosAd → Type 1
FindsAd ad_id user_id s ad =
    (ad.id ≡ ad_id)
    × IsOwned user_id s ad
    × (ad.is_active ≡ true)
    × ((P : BazosAd → Type 0) → P ad → Exists P s.ads)

enqueue_draft-Ends :
    (env : PublisherEnv) (ad_id : ℕ) (user_id : String) (dto : EnqueueBazosPublishDto)
    (c : PolicyCheck) {s u : Store} {a : BazosPublishAttempt}
    → Ends (enqueue_draft env ad_id user_id dto) s (queued a c) u
    → (ad : BazosAd) × FindsAd ad_id user_id s ad × IsAdmitted env ad dto s a
unfolding enqueue_draft find_newest
enqueue_draft-Ends env ad_id user_id dto c {a} e =
    let (ad, _, found, e1) = bind-Ends e in
    let (is_it, owned, kept, there) = find_ad_for_user-Ends ad_id user_id found in
    let (_, _, asserted, e2) = bind-Ends e1 in
    let (active, kept_too) = assert_publishable_draft-Ends ad asserted in
    let (o, _, looked, e3) = bind-Ends e2 in
    (
      ad,
      (is_it, owned, active, there),
      subst (λ v. IsAdmitted env ad dto v a) (sym (kept ∙ (kept_too ∙ looked.store)))
          (enqueue_unless-Ends env ad dto c o e3),
    )

evaluated_now :
    (env : PolicyEnv) (s : Store) (input : PolicyCheckInput)
    → (evaluate env s input).evaluated_at ≡ env.now
unfolding evaluate
evaluated_now env s input = refl

due_time-bounds :
    (env : PolicyEnv) (s : Store) (input : PolicyCheckInput)
    → ((n : ℕ) → 0 < n → env.random n < n)
    → (evaluate env s input).allowed ≡ true
    → (env.now + 60 * 1000 ≤ due_time (evaluate env s input))
      × (due_time (evaluate env s input) ≤ env.now + 180 * 1000)
due_time-bounds env s input below allowed = elim (evaluate-delay env s input below) [
  | inl (_, d, chosen, low, high) ↦
      let delay = ap seconds chosen in
      (
        omega (arith, evaluated_now env s input, delay, low),
        omega (arith, evaluated_now env s input, delay, high),
      )
  | inr (denied, _) ↦ absurd (cc (sym allowed ∙ denied))
]

-- The attempt `a` is in the queue for the ad, which is the one under the identifier, active and under
-- an identity of the user. The policy, asked about that ad in the store `s`, allowed its publication,
-- and the attempt becomes due 60 to 180 seconds later.
pub record IsQueuedFor (env : PublisherEnv) (ad_id : ℕ) (user_id : String)
    (dto : EnqueueBazosPublishDto) (s : Store) (a : BazosPublishAttempt) (ad : BazosAd)
    : Type 0 where
  pub itself : ad.id ≡ ad_id
  pub is_owned : IsOwned user_id s ad
  pub is_active : ad.is_active ≡ true
  pub input : PolicyCheckInput
  pub is_asked : IsAskedOf ad dto.public_duplicate_check dto.content_policy input
  pub is_permitted : (evaluate env.policy s input).allowed ≡ true
  pub of_ad : a.ad_id ≡ some ad_id
  pub of_identity : ad.identity_id ≡ some a.identity_id
  pub in_queue : a.status ≡ AttemptStatus.queued
  pub due : ℕ
  pub not_before : a.not_before ≡ some due
  pub not_early : env.policy.now + 60 * 1000 ≤ due
  pub not_late : due ≤ env.policy.now + 180 * 1000

-- For a random source that keeps below its bound, an attempt that is put into the queue is for an ad
-- of the store that has the identifier, is active and is under an identity of the user. The policy
-- allowed the publication at that time, asked about that ad: under its identity, in its category, for
-- its product, and with the evidence of the request. The attempt becomes due 60 to 180 seconds later.
pub enqueue_draft-queued :
    (env : PublisherEnv) (ad_id : ℕ) (user_id : String) (dto : EnqueueBazosPublishDto)
    (c : PolicyCheck) (s u : Store) (a : BazosPublishAttempt)
    → ((n : ℕ) → 0 < n → env.policy.random n < n)
    → Ends (enqueue_draft env ad_id user_id dto) s (queued a c) u
    → Exists (IsQueuedFor env ad_id user_id dto s a) s.ads
unfolding IsAdmitted
enqueue_draft-queued env ad_id user_id dto c s u a below e =
    let (ad, (is_it, owned, active, there), admitted) =
      enqueue_draft-Ends env ad_id user_id dto c e in
    let (input, asked, allowed, for_ad, of_identity, in_queue, due) = admitted in
    let bounds = due_time-bounds env.policy s input below allowed in
    there (IsQueuedFor env ad_id user_id dto s a) (record {
      itself = is_it;
      is_owned = owned;
      is_active = active;
      input = input;
      is_asked = asked;
      is_permitted = allowed;
      of_ad = for_ad ∙ ap some is_it;
      of_identity = asked.identity ∙ ap some (sym of_identity);
      in_queue = in_queue;
      due = due_time (evaluate env.policy s input);
      not_before = due;
      not_early = bounds.0;
      not_late = bounds.1;
    })
