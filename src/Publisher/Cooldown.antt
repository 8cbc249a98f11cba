-- ===== src/Publisher/Cooldown.antt =====
-- A successful publication starts the cooldown of its category.
use bazos.Base.{
  ℕ, ◌+◌, ◌*◌, ◌<◌, ◌≡◌, refl, sym, ap, ◌∙◌, subst, Option, none, some, true, false, Bool-cases,
  inl, inr, String, arith, find_first, truthy, ◌==◌, nat_eq, string_eq, ==-iff, find_first-append,
  find_first-update_where, ◌&&◌, some_inj,
}
use bazos.Store.{
  Store, BazosAd, BazosIdentityCategoryCadence, BazosPublishAttempt,
  bazos_identity_category_cadence, create,
}
use bazos.Store.Runs.{Ends, bind-Ends, return-Ends, find_where-Ends, update-Ends, if_Ends, ok_inj}
use bazos.Policy.{evaluate}
use bazos.Policy.Input.{PolicyEnv, PolicyCheckInput}
use bazos.Policy.Gates.{is_cadence_of}
use bazos.Policy.Permitted.{HasCooled}
use bazos.Policy.Refinement.{evaluate-MayPublish_iff}
use bazos.Identity.Record.{upsert, record_category_publish}
use bazos.Publisher.Claim.{find_attempt_for_user, find_attempt_ad, ad_of}
use bazos.Publisher.Record.{
  RecordBazosPublishResultDto, publish_category, publish_ad, record_successful_result,
  record_by_kind, record_result,
}

-- The last publication of the identity in the category was at `now`.
abbrev WasPublishedAt : ℕ → ℕ → String → Store → Type 0
WasPublishedAt now id category s =
    (c : BazosIdentityCategoryCadence) × (find_first (is_cadence_of id category) s.cadences
      ≡ some c)
    × (c.last_published_at ≡ now)

own_cadence : (id : ℕ) (category : String) → (id == id && category == category) ≡ true
own_cadence id category = ground (arith, (==-iff id id).1 refl, (==-iff category category).1 refl)

upsert-Ends :
    (now id : ℕ) (category : String) (o : Option BazosIdentityCategoryCadence) {s u : Store}
    {x : Unit {0}}
    → Ends (upsert now id category o) s x u
    → find_first (is_cadence_of id category) s.cadences ≡ o
    → WasPublishedAt now id category u
unfolding create
upsert-Ends now id category none {s} {u} e found =
    let (row, t, made, e1) = bind-Ends e in
    let rows = ap (λ (v : Store). v.cadences) (made.store ∙ (return-Ends e1).1) in
    (
      record {
        id = s.next_id;
        identity_id = id;
        bazos_category = category;
        last_published_at = now;
      },
      ap (find_first (is_cadence_of id category)) (sym rows)
          ∙ find_first-append (is_cadence_of id category) s.cadences _ found
              (own_cadence id category),
      refl,
    )
upsert-Ends now id category (some c) {s} {u} e found =
    let (row, t, changed, e1) = bind-Ends e in
    let (_, _, _, written) = update-Ends bazos_identity_category_cadence c.id _ changed in
    let rows = ap (λ (v : Store). v.cadences) (written ∙ (return-Ends e1).1) in
    (
      record c { last_published_at = now },
      ap (find_first (is_cadence_of id category)) (sym rows)
          ∙ find_first-update_where (is_cadence_of id category) (λ d. d.id == c.id)
              (λ d. record d { last_published_at = now }) (λ d. refl) s.cadences c found
              ((==-iff c.id c.id).1 refl),
      refl,
    )

record_category_publish-Ends :
    (now id : ℕ) (category : String) {s u : Store} {x : Unit {0}}
    → Ends (record_category_publish now id category) s x u
    → WasPublishedAt now id category u
unfolding record_category_publish
record_category_publish-Ends now id category {s} {u} {x} e =
    let (o, t, looked, e1) = bind-Ends e in
    let (found, kept) =
      find_where-Ends bazos_identity_category_cadence (is_cadence_of id category) looked in
    upsert-Ends now id category o (subst (λ v. Ends (upsert now id category o) v x u) (sym kept) e1)
      found

module _ (now : ℕ) (a : BazosPublishAttempt) (dto : RecordBazosPublishResultDto) where
  publish_category-Ends :
      (o : Option String) (category : String) {s u : Store} {x : Unit {0}}
      → Ends (publish_category now a.identity_id o) s x u
      → o ≡ some category
      → truthy (some category) ≡ true
      → WasPublishedAt now a.identity_id category u
  publish_category-Ends none category e same filled = absurd (cc same)
  publish_category-Ends (some c) category {s} {u} {x} e same filled =
      elim (if_Ends (truthy (some c)) e) [
        | inl (_, e1) ↦
            subst (λ d. WasPublishedAt now a.identity_id d u) (some_inj same)
              (record_category_publish-Ends now a.identity_id c e1)
        | inr (empty, _) ↦ absurd (cc (sym empty ∙ (ap truthy same ∙ filled)))
      ]

  publish_ad-Ends :
      (ad : BazosAd) (category : String) {s u : Store} {x : Unit {0}}
      → Ends (publish_ad now a dto (some ad)) s x u
      → ad.category ≡ some category
      → truthy (some category) ≡ true
      → WasPublishedAt now a.identity_id category u
  publish_ad-Ends ad category e same filled =
      let (_, _, _, e1) = bind-Ends e in
      let (_, _, _, e2) = bind-Ends e1 in publish_category-Ends ad.category category e2 same filled

  record_successful_result-Ends :
      (ad : BazosAd) (category : String) {s u : Store} {b : BazosPublishAttempt}
      → Ends (record_successful_result now a (some ad) dto) s b u
      → ad.category ≡ some category
      → truthy (some category) ≡ true
      → WasPublishedAt now a.identity_id category u
  unfolding record_successful_result
  record_successful_result-Ends ad category e same filled =
      let (_, _, _, e1) = bind-Ends e in
      let (_, t, published, e2) = bind-Ends e1 in
      subst (WasPublishedAt now a.identity_id category) (return-Ends e2).1
        (publish_ad-Ends ad category published same filled)

  record_by_kind-Ends :
      (o : Option BazosAd) (ad : BazosAd) (category : String) {s u : Store}
      {b : BazosPublishAttempt}
      → Ends (record_by_kind now a o dto) s b u
      → dto.success ≡ true
      → o ≡ some ad
      → ad.category ≡ some category
      → truthy (some category) ≡ true
      → WasPublishedAt now a.identity_id category u
  record_by_kind-Ends none ad category e success same named filled = absurd (cc same)
  record_by_kind-Ends (some d) ad category e success same named filled =
      elim (if_Ends dto.success e) [
        | inl (_, e1) ↦
            record_successful_result-Ends d category e1
              (ap (λ (y : BazosAd). y.category) (some_inj same) ∙ named) filled
        | inr (failure, _) ↦ absurd (cc (sym failure ∙ success))
      ]

record_result-Ends :
    (now id : ℕ) (user_id : String) (dto : RecordBazosPublishResultDto) (a : BazosPublishAttempt)
    (ad : BazosAd) (category : String) {s u : Store} {b : BazosPublishAttempt}
    → Ends (record_result now id user_id dto) s b u
    → Ends (find_attempt_for_user id user_id) s a s
    → ad_of s a ≡ some ad
    → dto.success ≡ true
    → ad.category ≡ some category
    → truthy (some category) ≡ true
    → WasPublishedAt now a.identity_id category u
unfolding record_result find_attempt_ad
record_result-Ends now id user_id dto a ad category {s} {u} e mine of_ad success named filled =
    let (x, t, found, e1) = bind-Ends e in
    let (o, t1, looked, e2) = bind-Ends e1 in
    let (_, _, _, e3) = bind-Ends e2 in
    let (_, _, _, e4) = bind-Ends e3 in
    let same : x ≡ a = ok_inj (sym found.value ∙ mine.value) in
    let here : t ≡ s = sym found.store ∙ mine.store in
    let has : o ≡ some ad =
      sym (ok_inj looked.value) ∙ (ap (λ v. ad_of v x) here ∙ (ap (ad_of s) same ∙ of_ad)) in
    subst (λ (y : BazosPublishAttempt). WasPublishedAt now y.identity_id category u) same
      (record_by_kind-Ends now x dto o ad category e4 success has named filled)

-- After a successful result is recorded for a user's attempt whose ad has a category, no
-- publication of the same identity in that category is allowed for the next 24 hours.
pub record_result-evaluate_refused :
    (now id : ℕ) (user_id : String) (dto : RecordBazosPublishResultDto) (a b : BazosPublishAttempt)
    (ad : BazosAd) (category : String) (s u : Store) (env : PolicyEnv) (input : PolicyCheckInput)
    → Ends (record_result now id user_id dto) s b u
    → Ends (find_attempt_for_user id user_id) s a s
    → ad_of s a ≡ some ad
    → dto.success ≡ true
    → ad.category ≡ some category
    → truthy (some category) ≡ true
    → input.identity_id ≡ a.identity_id
    → input.bazos_category ≡ category
    → env.now < now + 24 * 60 * 60 * 1000
    → (evaluate env u input).allowed ≡ false
record_result-evaluate_refused now id user_id dto a b ad category s u env input e mine of_ad success
      named filled of_identity of_category soon =
    let (c, found, at) =
      record_result-Ends now id user_id dto a ad category e mine of_ad success named filled in
    elim (Bool-cases (evaluate env u input).allowed) [
      | inl allowed ↦
          let (i, _, may) = (evaluate-MayPublish_iff env u input).0 allowed in
          let cooled : HasCooled env.now (some c) =
            subst (HasCooled env.now)
              (ap (λ k. find_first (is_cadence_of k input.bazos_category) u.cadences) of_identity
                ∙ (ap (λ k. find_first (is_cadence_of a.identity_id k) u.cadences) of_category
                    ∙ found))
              may.cooled in
          absurd (omega (arith, cooled, soon, at))
      | inr denied ↦ denied
    ]
