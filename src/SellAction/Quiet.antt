-- ===== src/SellAction/Quiet.antt =====
-- Preparing a draft queues nothing.
use bazos.Base.{
  ℕ, ◌≡◌, ◌≢◌, refl, sym, ap, ◌∙◌, subst, Option, none, some, List, Bool, true, false, not, inl,
  inr, String, arith, Exists, All, [], ◌∷◌, ◌⊎◌, Bool-cases,
}
use bazos.Gate.{PolicyEvaluationResult}
use bazos.Store.{
  Store, BazosAd, BazosIdentity, BazosPublishAttempt, MediaItem, M, bazos_ad, bazos_publish_attempt,
  find_many, bazos_identity,
}
use bazos.Store.Runs.{Ends, bind-Ends, return-Ends, or_throw-Ends, find_where-Ends, if_Ends}
use bazos.Store.Avoids.{Avoids, IsOther, avoids_rules, update_other-Avoids, or_throw-Avoids}
use bazos.Store.Loops.{Avoids-Ends}
use bazos.Ad.{find_by_id_for_user, evaluate_publish_policy}
use bazos.Ad.Laws.{evaluate_publish_policy-refused}
use bazos.Ad.Drafts.{create_draft, product_for_draft}
use bazos.Ad.Uploads.{create_draft_from_catalog, from_catalog}
use bazos.Publisher.Queue.{consult}
use bazos.Policy.Input.{PolicyEnv, PolicyCheckInput}
use bazos.SellAction.Quality.{CatalogQuality, evaluate_catalog_quality}
use bazos.SellAction.Stock.{WarehouseStock}
use bazos.SellAction.Draft.{
  SellEnv, PrepareCatalogSellActionDto, find_or_create_draft, renew_or_create, renewed_draft,
  catalog_draft,
}
use bazos.SellAction.Shown.{
  NextAction, confirm_publish, next_action, resolve_policy_failures,
  resolve_catalog_quality_blockers,
}
use bazos.SellAction.Action.{
  ActionResponse, prepare, prepare_allowed, find_identity_for_user, find_category_mapping,
  build_action_response, build_catalog_quality_blocked_response,
}

ads-IsOther : IsOther bazos_publish_attempt bazos_ad
ads-IsOther = record { kept = λ rs s. refl }

module _ (P : BazosPublishAttempt → Type 0) where
  IsQuiet {ℓ} : {A : Type ℓ} → M A → Type 0
  IsQuiet m = Avoids bazos_publish_attempt P m

  created :
      (env : SellEnv) (user_id : String) (product_id : ℕ) (dto : PrepareCatalogSellActionDto)
      (stock : WarehouseStock) (media : List MediaItem)
      → IsQuiet (
          create_draft env.catalog_client user_id
            (from_catalog (catalog_draft product_id dto stock media))
            false)
  unfolding IsQuiet create_draft product_for_draft
  created env user_id product_id dto stock media = search (avoids_rules, ads-IsOther) depth 30

  renewed_or_created :
      (env : SellEnv) (user_id : String) (product_id : ℕ) (dto : PrepareCatalogSellActionDto)
      (stock : WarehouseStock) (media : List MediaItem) (o : Option BazosAd)
      → IsQuiet (renew_or_create env user_id product_id dto stock media o)
  unfolding IsQuiet create_draft_from_catalog
  renewed_or_created env user_id product_id dto stock media none =
      created env user_id product_id dto stock media
  renewed_or_created env user_id product_id dto stock media (some existing) =
      update_other-Avoids bazos_publish_attempt P existing.id (renewed_draft dto stock media)
        ads-IsOther

  found_ads : (p : BazosAd → Bool) → IsQuiet (find_many bazos_ad p)
  unfolding IsQuiet find_many
  found_ads p = record { at = λ s x. x }

  drafted :
      (env : SellEnv) (user_id : String) (product_id : ℕ) (dto : PrepareCatalogSellActionDto)
      → IsQuiet (find_or_create_draft env user_id product_id dto)
  unfolding IsQuiet find_or_create_draft
  drafted env user_id product_id dto = search (avoids_rules, found_ads, renewed_or_created) depth 20

  looked_up : (id : ℕ) (user_id : String) → IsQuiet (find_by_id_for_user id user_id)
  unfolding IsQuiet find_by_id_for_user
  looked_up id user_id = record { at = λ s. (or_throw-Avoids bazos_publish_attempt P _ _).at s }

  consulted : (env : PolicyEnv) (input : PolicyCheckInput) → IsQuiet (consult env input)
  unfolding IsQuiet consult
  consulted env input = record { at = λ s x. x }

  checked :
      (env : PolicyEnv) (id : ℕ) (user_id : String)
      → IsQuiet (evaluate_publish_policy env id user_id)
  unfolding IsQuiet evaluate_publish_policy
  checked env id user_id = search (avoids_rules, ads-IsOther, looked_up, consulted) depth 30

  prepared :
      (env : SellEnv) (user_id : String) (product_id : ℕ) (dto : PrepareCatalogSellActionDto)
      (identity : BazosIdentity) (mapped : Bool) (quality : CatalogQuality)
      → IsQuiet (prepare_allowed env user_id product_id dto identity mapped quality)
  unfolding IsQuiet
  prepared env user_id product_id dto identity mapped quality =
      search (avoids_rules, drafted, checked) depth 20

  kept_quiet :
      (env : SellEnv) (user_id : String) (product_id : ℕ) (dto : PrepareCatalogSellActionDto)
      (identity : BazosIdentity) (mapped : Bool) (quality : CatalogQuality) {s u : Store}
      {r : ActionResponse}
      → Ends (prepare_allowed env user_id product_id dto identity mapped quality) s r u
      → Exists P u.attempts
      → Exists P s.attempts
  unfolding IsQuiet
  kept_quiet env user_id product_id dto identity mapped quality e x =
      Avoids-Ends bazos_publish_attempt P
        (prepare_allowed env user_id product_id dto identity mapped quality)
        (prepared env user_id product_id dto identity mapped quality) e x

find_identity_for_user-store :
    (id : ℕ) (user_id : String) {s t : Store} {i : BazosIdentity}
    → Ends (find_identity_for_user id user_id) s i t
    → s ≡ t
unfolding find_identity_for_user
find_identity_for_user-store id user_id e =
    let (_, _, looked, e1) = bind-Ends e in
    (find_where-Ends bazos_identity _ looked).1 ∙ (or_throw-Ends _ _ e1).1

abbrev Confirms : NextAction → Type 0
Confirms confirm_publish = Unit
Confirms n = ⊥

blocked-not-confirm : ¬ resolve_catalog_quality_blockers ≡ confirm_publish
blocked-not-confirm e = subst Confirms (sym e) tt

refused-not-confirm :
    (result : PolicyEvaluationResult) (quality : CatalogQuality)
    → result.allowed ≡ false
    → ¬ next_action (some result) none quality ≡ confirm_publish
unfolding next_action
refused-not-confirm result quality denied e = elim (Bool-cases quality.allowed) [
  | inl good ↦
      let here : next_action (some result) none quality ≡ resolve_policy_failures =
        rw (good, denied) refl in
      subst Confirms (sym (sym here ∙ e)) tt
  | inr bad ↦
      let here : next_action (some result) none quality ≡ resolve_catalog_quality_blockers =
        rw bad refl in
      subst Confirms (sym (sym here ∙ e)) tt
]

prepare_allowed-answer :
    (env : SellEnv) (user_id : String) (product_id : ℕ) (dto : PrepareCatalogSellActionDto)
    (identity : BazosIdentity) (mapped : Bool) (quality : CatalogQuality) {s u : Store}
    {r : ActionResponse}
    → Ends (prepare_allowed env user_id product_id dto identity mapped quality) s r u
    → (r.queue ≡ none) × (r.next ≢ confirm_publish)
unfolding build_action_response
prepare_allowed-answer env user_id product_id dto identity mapped quality {r} e =
    let (draft, t, _, e1) = bind-Ends e in
    let (result, v, asked, e2) = bind-Ends e1 in
    let (is_answer, _) = return-Ends e2 in
    let denied =
      evaluate_publish_policy-refused env.publisher.policy draft.id user_id t v result asked in
    (
      ap (λ (x : ActionResponse). x.queue) (sym is_answer),
      λ asks.
          refused-not-confirm result quality denied
            (ap (λ (x : ActionResponse). x.next) is_answer ∙ asks),
    )

included :
    {A : Type 0} (xs ys : List A)
    → ((P : A → Type 0) → Exists P xs → Exists P ys)
    → All (λ a. Exists (λ b. b ≡ a) ys) xs
included [] ys h = tt
included (x ∷ xs) ys h = (h (λ b. b ≡ x) (inl refl), included xs ys (λ P e. h P (inr e)))

-- A call of `prepare` that ends queues nothing: every attempt that there is afterwards was there
-- before. It never asks for the confirmation as the next step, since the check of a draft never
-- allows the publication. If the quality of the product does not allow it, nothing is written.
pub prepare-IsQuiet :
    (env : SellEnv) (user_id : String) (product_id : ℕ) (dto : PrepareCatalogSellActionDto)
    (s u : Store) (r : ActionResponse)
    → Ends (prepare env user_id product_id dto) s r u
    → (r.queue ≡ none)
      × (r.next ≢ confirm_publish)
      × All (λ a. Exists (λ b. b ≡ a) s.attempts) u.attempts
      × (((evaluate_catalog_quality (env.get_product_readiness product_id)).allowed ≡ true)
          ⊎ (s ≡ u))
unfolding prepare find_identity_for_user find_category_mapping
    build_catalog_quality_blocked_response
prepare-IsQuiet env user_id product_id dto s u r e =
    let (identity, _, found, e1) = bind-Ends e in
    let (mapped, v, looked, e2) = bind-Ends e1 in
    let quality = evaluate_catalog_quality (env.get_product_readiness product_id) in
    let same : s ≡ v = find_identity_for_user-store dto.identity_id user_id found ∙ looked.store in
    elim (if_Ends (not quality.allowed) e2) [
      | inl (_, answered) ↦
          let (is_answer, unwritten) = return-Ends answered in
          (
            ap (λ (x : ActionResponse). x.queue) (sym is_answer),
            λ asks. blocked-not-confirm (ap (λ (x : ActionResponse). x.next) is_answer ∙ asks),
            subst (λ (w : Store). All (λ a. Exists (λ b. b ≡ a) s.attempts) w.attempts)
                (same ∙ unwritten) (included s.attempts s.attempts (λ P x. x)),
            inr (same ∙ unwritten),
          )
      | inr (good, e3) ↦
          let (no_queue, never) =
            prepare_allowed-answer env user_id product_id dto identity mapped quality e3 in
          (
            no_queue,
            never,
            included u.attempts s.attempts λ P x.
                subst (λ (w : Store). Exists P w.attempts) (sym same)
                  (kept_quiet P env user_id product_id dto identity mapped quality e3 x),
            inl (ground (arith, good)),
          )
    ]
