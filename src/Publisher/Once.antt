-- ===== src/Publisher/Once.antt =====
-- The result of an attempt is recorded at most once.
use bazos.Base.{
  ℕ, ◌≡◌, refl, sym, subst, Option, none, some, List, [], ◌∷◌, Bool, true, false, inl, inr,
  Bool-cases, Option-cases, String, arith, Exists, find_first, update_where, ◌==◌, nat_eq, ==-iff,
  &&-eq-true, ◌&&◌, find_first-test, find_first-Exists,
}
use bazos.Store.{
  Store, AttemptStatus-discrete, BazosAd, BazosPublishAttempt, ReviewState, Error, err, M, update,
  not_found, bad_request, bazos_publish_attempt, bazos_ad, bazos_identity,
  bazos_identity_category_cadence, ◌>>=◌,
}
use bazos.Store.Runs.{Ends, bind-Ends, return-Ends, if_Ends, update-Ends, or_throw-Ends}
use bazos.Store.Avoids.{IsOther, Avoids, avoids_rules}
use bazos.Identity.Record.{upsert, record_category_publish, increment_active_ad_count}
use bazos.Publisher.Queue.{is_identity_of_user}
use bazos.Publisher.Claim.{find_attempt_for_user, find_attempt_ad}
use bazos.Publisher.Record.{
  RecordBazosPublishResultDto, is_terminal, publish_category, publish_ad, challenge_ad, fail_ad,
  record_successful_result, record_challenge_result, record_failed_result, record_by_kind,
  record_result, is_challenge_given,
}

ads-IsOther : IsOther bazos_publish_attempt bazos_ad
ads-IsOther = record { kept = λ rs s. refl }

identities-IsOther : IsOther bazos_publish_attempt bazos_identity
identities-IsOther = record { kept = λ rs s. refl }

category_cadences-IsOther : IsOther bazos_publish_attempt bazos_identity_category_cadence
category_cadences-IsOther = record { kept = λ rs s. refl }

-- The attempt `k`, still without a result.
abbrev IsOpen : ℕ → BazosPublishAttempt → Type 0
IsOpen k a = (a.id ≡ k) × (is_terminal a.status ≡ false)

abbrev Leaves {ℓ} : {A : Type ℓ} → ℕ → M A → Type 0
Leaves k m = Avoids bazos_publish_attempt (IsOpen k) m

module _ (k : ℕ) where
  publish_category-Leaves : (now id : ℕ) (o : Option String) → Leaves k (publish_category now id o)
  unfolding record_category_publish
  publish_category-Leaves now id none = search avoids_rules
  publish_category-Leaves now id (some c) = search (avoids_rules, upsert-Leaves)
    where
      upsert-Leaves : (o : Option _) → Leaves k (upsert now id c o)
      upsert-Leaves none = search (avoids_rules, category_cadences-IsOther)
      upsert-Leaves (some d) = search (avoids_rules, category_cadences-IsOther)

  publish_ad-Leaves :
      (now : ℕ) (a : BazosPublishAttempt) (dto : RecordBazosPublishResultDto) (o : Option BazosAd)
      → Leaves k (publish_ad now a dto o)
  unfolding increment_active_ad_count
  publish_ad-Leaves now a dto none = search avoids_rules
  publish_ad-Leaves now a dto (some ad) =
      search (avoids_rules, publish_category-Leaves, ads-IsOther, identities-IsOther) depth 20

  challenge_ad-Leaves : (r : ReviewState) (o : Option BazosAd) → Leaves k (challenge_ad r o)
  challenge_ad-Leaves r none = search avoids_rules
  challenge_ad-Leaves r (some ad) = search (avoids_rules, ads-IsOther)

  fail_ad-Leaves : (o : Option BazosAd) → Leaves k (fail_ad o)
  fail_ad-Leaves none = search avoids_rules
  fail_ad-Leaves (some ad) = search (avoids_rules, ads-IsOther)

  -- Rows that are given a terminal status are closed.
  closed :
      (f : BazosPublishAttempt → BazosPublishAttempt)
      → ((a : BazosPublishAttempt) → is_terminal (f a).status ≡ true)
      → ((a : BazosPublishAttempt) → (f a).id ≡ a.id)
      → (xs : List BazosPublishAttempt) → ¬ Exists (IsOpen k) (update_where (λ a. a.id == k) f xs)
  unfolding update_where
  closed f terminal keeps [] e = e
  closed f terminal keeps (x ∷ xs) e =
      ground (arith, terminal x, keeps x, closed f terminal keeps xs)

  kept_closed {ℓ} :
      {A : Type ℓ} (m : M A) {s t : Store} {x : A}
      → Leaves k m
      → Ends m s x t
      → ¬ Exists (IsOpen k) s.attempts
      → ¬ Exists (IsOpen k) t.attempts
  kept_closed m {s} leaves e before after =
      before (leaves.at s (subst (λ (v : Store). Exists (IsOpen k) v.attempts) (sym e.store) after))

  update-closed :
      (f : BazosPublishAttempt → BazosPublishAttempt) {s t : Store} {x : BazosPublishAttempt}
      → Ends (update bazos_publish_attempt k f) s x t
      → ((a : BazosPublishAttempt) → is_terminal (f a).status ≡ true)
      → ((a : BazosPublishAttempt) → (f a).id ≡ a.id)
      → ¬ Exists (IsOpen k) t.attempts
  update-closed f {s} e terminal keeps =
      let (_, _, _, written) = update-Ends bazos_publish_attempt k f e in
      subst (λ (v : Store). ¬ Exists (IsOpen k) v.attempts) written
        (closed f terminal keeps s.attempts)

module _ (now : ℕ) (a : BazosPublishAttempt) (o : Option BazosAd) where
  record_successful_result-closed :
      (dto : RecordBazosPublishResultDto) {s u : Store} {b : BazosPublishAttempt}
      → Ends (record_successful_result now a o dto) s b u
      → ¬ Exists (IsOpen a.id) u.attempts
  unfolding record_successful_result AttemptStatus-discrete
  record_successful_result-closed dto e =
      let (_, _, recorded, e1) = bind-Ends e in
      let (_, _, published, e2) = bind-Ends e1 in
      subst (λ (v : Store). ¬ Exists (IsOpen a.id) v.attempts) (return-Ends e2).1
        (kept_closed a.id _ (publish_ad-Leaves a.id now a dto o) published
          (update-closed a.id _ recorded (λ x. refl) (λ x. refl)))

  record_failed_result-closed :
      (error : Option String) {s u : Store} {b : BazosPublishAttempt}
      → Ends (record_failed_result now a o error) s b u
      → ¬ Exists (IsOpen a.id) u.attempts
  unfolding record_failed_result AttemptStatus-discrete
  record_failed_result-closed error e =
      let (_, _, recorded, e1) = bind-Ends e in
      let (_, _, marked, e2) = bind-Ends e1 in
      subst (λ (v : Store). ¬ Exists (IsOpen a.id) v.attempts) (return-Ends e2).1
        (kept_closed a.id _ (fail_ad-Leaves a.id o) marked
          (update-closed a.id _ recorded (λ x. refl) (λ x. refl)))

  record_challenge_result-closed :
      (dto : RecordBazosPublishResultDto) {s u : Store} {b : BazosPublishAttempt}
      → Ends (record_challenge_result now a o dto) s b u
      → ¬ Exists (IsOpen a.id) u.attempts
  unfolding record_challenge_result AttemptStatus-discrete
  record_challenge_result-closed dto e =
      let (r, _, _, e1) = bind-Ends e in
      let (_, _, recorded, e2) = bind-Ends e1 in
      let (_, _, marked, e3) = bind-Ends e2 in
      let (_, _, stopped, e4) = bind-Ends e3 in
      subst (λ (v : Store). ¬ Exists (IsOpen a.id) v.attempts) (return-Ends e4).1
        (kept_closed a.id _ (search (avoids_rules, identities-IsOther)) stopped (
          kept_closed a.id _ (challenge_ad-Leaves a.id r o) marked
            (update-closed a.id _ recorded (λ x. refl) (λ x. refl))))

  record_by_kind-closed :
      (dto : RecordBazosPublishResultDto) {s u : Store} {b : BazosPublishAttempt}
      → Ends (record_by_kind now a o dto) s b u
      → ¬ Exists (IsOpen a.id) u.attempts
  record_by_kind-closed dto e = elim (if_Ends dto.success e) [
    | inl (_, e1) ↦ record_successful_result-closed dto e1
    | inr (_, e1) ↦ elim (if_Ends (is_challenge_given dto.challenge_state) e1) [
      | inl (_, e2) ↦ record_challenge_result-closed dto e2
      | inr (_, e2) ↦ record_failed_result-closed dto.error e2
    ]
  ]

find_attempt_for_user-id :
    (k : ℕ) (user_id : String) {s t : Store} {a : BazosPublishAttempt}
    → Ends (find_attempt_for_user k user_id) s a t
    → a.id ≡ k
unfolding find_attempt_for_user
find_attempt_for_user-id k user_id {s} {a} e =
    let found = (or_throw-Ends _ _ (record { value = e.value; store = e.store })).0 in
    (==-iff _ _).0 (&&-eq-true _ _ (find_first-test _ s.attempts a found)).0

record_result-closed :
    (now k : ℕ) (user_id : String) (dto : RecordBazosPublishResultDto) {s u : Store}
    {b : BazosPublishAttempt}
    → Ends (record_result now k user_id dto) s b u
    → ¬ Exists (IsOpen k) u.attempts
unfolding record_result
record_result-closed now k user_id dto {u} e =
    let (a, _, found, e1) = bind-Ends e in
    let (o, _, _, e2) = bind-Ends e1 in
    let (_, _, _, e3) = bind-Ends e2 in
    let (_, _, _, e4) = bind-Ends e3 in
    subst (λ id. ¬ Exists (IsOpen id) u.attempts) (find_attempt_for_user-id k user_id found)
      (record_by_kind-closed now a o dto e4)

closed-refused :
    (now k : ℕ) (user_id : String) (dto : RecordBazosPublishResultDto) (u : Store)
    → ¬ Exists (IsOpen k) u.attempts
    → (e : Error) × ((record_result now k user_id dto u).0 ≡ err e)
      × ((record_result now k user_id dto u).1 ≡ u)
unfolding record_result ◌>>=◌ find_attempt_for_user find_attempt_ad
closed-refused now k user_id dto u none_open =
    let p : BazosPublishAttempt → Bool =
      λ a. a.id == k && is_identity_of_user user_id u.identities a.identity_id in
    elim (Option-cases (find_first p u.attempts)) [
      | inl missing ↦ (not_found, ground arith, ground arith)
      | inr (a, found) ↦
          let same = (==-iff a.id k).0 (&&-eq-true _ _ (find_first-test p u.attempts a found)).0 in
          elim (Bool-cases (is_terminal a.status)) [
            | inl terminal ↦ (bad_request, ground arith, ground arith)
            | inr pending ↦
                absurd
                  (none_open (find_first-Exists p (IsOpen k) u.attempts a found (same, pending)))
          ]
    ]

-- Once a result of an attempt is recorded, every later result for it, by whichever user, is
-- refused with an exception and changes nothing.
pub record_result-once :
    (now k : ℕ) (user_id : String) (dto : RecordBazosPublishResultDto) (s u : Store)
    (b : BazosPublishAttempt) (later : ℕ) (other : String) (again : RecordBazosPublishResultDto)
    → Ends (record_result now k user_id dto) s b u
    → (e : Error) × ((record_result later k other again u).0 ≡ err e)
      × ((record_result later k other again u).1 ≡ u)
record_result-once now k user_id dto s u b later other again e =
    closed-refused later k other again u (record_result-closed now k user_id dto e)
