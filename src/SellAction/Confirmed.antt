-- ===== src/SellAction/Confirmed.antt =====
-- What a confirmation of the sell action leads to.
use bazos.Base.{
  ℕ, ◌<◌, ◌≡◌, refl, sym, ap, ◌∙◌, subst, Option, none, some, Bool, true, false, not, inl, ◌⊎◌, inr,
  String, arith, nat_eq, option_eq, ==-iff, &&-eq-true, find_first-test, find_first-Exists, Exists,
}
use bazos.Store.{Store, BazosAd, BazosIdentity}
use bazos.Store.Runs.{Ends, bind-Ends, return-Ends, throw_if-Ends, or_throw-Ends, if_Ends}
use bazos.Publisher.Queue.{Enqueued, queued, already, blocked, enqueue_draft}
use bazos.Publisher.Asked.{IsOwned, is_ad_of_user-IsOwned}
use bazos.Publisher.Queued.{IsQueuedFor, enqueue_draft-queued}
use bazos.SellAction.Quality.{CatalogQuality, evaluate_catalog_quality}
use bazos.SellAction.Draft.{SellEnv}
use bazos.SellAction.Action.{
  ActionResponse, ConfirmCatalogSellActionDto, confirm, confirm_allowed, find_draft_for_product,
  is_draft_for_product, include_identity, find_category_mapping, build_action_response,
  build_catalog_quality_blocked_response,
}

-- What is said of what `enqueueDraft` answers in the store `s`: an attempt that it has put into the
-- queue is for the ad of the store under the identifier, and the policy allowed it for that ad.
abbrev pub IsGuardedQueue :
    SellEnv → String → ConfirmCatalogSellActionDto → Store → Enqueued → Type 0
IsGuardedQueue env user_id dto s (already a) = Unit
IsGuardedQueue env user_id dto s (blocked a c) = Unit
IsGuardedQueue env user_id dto s (queued a c) =
    Exists (IsQueuedFor env.publisher dto.ad_id user_id dto.enqueue s a) s.ads

-- The ad is the one that the seller confirms: a draft of the product under an identity of the user.
abbrev pub IsNamedDraft : ℕ → ℕ → String → Store → BazosAd → Type 0
IsNamedDraft ad_id product_id user_id s ad =
    (ad.id ≡ ad_id) × (ad.product_id ≡ some product_id) × IsOwned user_id s ad

module _ (env : SellEnv) (user_id : String) (product_id : ℕ)
    (below : (n : ℕ) → 0 < n → env.publisher.policy.random n < n) where
  enqueued-IsGuarded :
      (dto : ConfirmCatalogSellActionDto) (s t : Store) (q : Enqueued)
      → Ends (enqueue_draft env.publisher dto.ad_id user_id dto.enqueue) s q t
      → IsGuardedQueue env user_id dto s q
  enqueued-IsGuarded dto s t (already a) e = tt
  enqueued-IsGuarded dto s t (blocked a c) e = tt
  enqueued-IsGuarded dto s t (queued a c) e =
      enqueue_draft-queued env.publisher dto.ad_id user_id dto.enqueue c s t a below e

  confirm_allowed-IsGuarded :
      (dto : ConfirmCatalogSellActionDto) (draft : BazosAd) (identity : Option BazosIdentity)
      (mapped : Bool) (quality : CatalogQuality) (s u : Store) (r : ActionResponse)
      → draft.id ≡ dto.ad_id
      → Ends (confirm_allowed env user_id product_id dto draft identity mapped quality) s r u
      → (q : Enqueued) × (r.queue ≡ some q) × IsGuardedQueue env user_id dto s q
  unfolding build_action_response
  confirm_allowed-IsGuarded dto draft identity mapped quality s u r same e =
      let (q, t, enqueued, e1) = bind-Ends e in
      let (refreshed, _, _, e2) = bind-Ends e1 in
      (
        q,
        ap (λ (x : ActionResponse). x.queue) (sym (return-Ends e2).0),
        enqueued-IsGuarded dto s t q (
            subst (λ id. Ends (enqueue_draft env.publisher id user_id dto.enqueue) s q t) same
              enqueued),
      )

find_draft_for_product-Ends :
    (ad_id product_id : ℕ) (user_id : String) {s t : Store} {ad : BazosAd}
    → Ends (find_draft_for_product ad_id product_id user_id) s ad t
    → (ad.id ≡ ad_id) × Exists (IsNamedDraft ad_id product_id user_id s) s.ads × (s ≡ t)
unfolding find_draft_for_product is_draft_for_product
find_draft_for_product-Ends ad_id product_id user_id {s} {t} {ad} e =
    let (found, kept) = or_throw-Ends _ _ (record { value = e.value; store = e.store }) in
    let (is_it, rest) = &&-eq-true _ _ (find_first-test _ s.ads ad found) in
    let (of_product, mine) = &&-eq-true _ _ rest in
    let same = (==-iff ad.id ad_id).0 is_it in
    (
      same,
      find_first-Exists _ (IsNamedDraft ad_id product_id user_id s) s.ads ad found (
        same,
        (==-iff _ _).0 of_product,
        is_ad_of_user-IsOwned user_id s ad ad.identity_id refl mine,
      ),
      kept,
    )

-- A call of `confirm` that ends has the seller's confirmation, and names a draft that is there: an ad
-- of the product, under an identity of the user. Either the quality of the product does not allow it,
-- and nothing is written and nothing is queued; or the quality allows it, and an attempt that is put
-- into the queue is for the ad under that identifier, which is active and the user's. The policy
-- allowed the publication at that time, asked about that ad with its identity, category and product,
-- and the attempt becomes due 60 to 180 seconds later. The random source keeps below its bound.
pub confirm-IsGuarded :
    (env : SellEnv) (user_id : String) (product_id : ℕ) (dto : ConfirmCatalogSellActionDto)
    (s u : Store) (r : ActionResponse)
    → ((n : ℕ) → 0 < n → env.publisher.policy.random n < n)
    → Ends (confirm env user_id product_id dto) s r u
    → (dto.confirmed ≡ true)
      × Exists (IsNamedDraft dto.ad_id product_id user_id s) s.ads
      × ((((evaluate_catalog_quality (env.get_product_readiness product_id)).allowed ≡ false)
            × (s ≡ u)
            × (r.queue ≡ none))
          ⊎ (((evaluate_catalog_quality (env.get_product_readiness product_id)).allowed ≡ true)
              × ((q : Enqueued) × (r.queue ≡ some q) × IsGuardedQueue env user_id dto s q)))
unfolding confirm include_identity find_category_mapping build_catalog_quality_blocked_response
confirm-IsGuarded env user_id product_id dto s u r below e =
    let (_, _, guarded, e1) = bind-Ends e in
    let (draft, _, found, e2) = bind-Ends e1 in
    let (identity, _, included, e3) = bind-Ends e2 in
    let (mapped, v, looked, e4) = bind-Ends e3 in
    let quality = evaluate_catalog_quality (env.get_product_readiness product_id) in
    let (sure, at_start) = throw_if-Ends _ _ guarded in
    let (is_it, named, kept) = find_draft_for_product-Ends dto.ad_id product_id user_id found in
    let there =
      subst (λ (w : Store). Exists (IsNamedDraft dto.ad_id product_id user_id w) w.ads)
        (sym at_start) named in
    let same : s ≡ v = at_start ∙ (kept ∙ (included.store ∙ looked.store)) in
    let confirmed : dto.confirmed ≡ true = ground (arith, sure) in
    elim (if_Ends (not quality.allowed) e4) [
      | inl (bad, answered) ↦
          let (is_answer, unwritten) = return-Ends answered in
          (
            confirmed,
            there,
            inl (
              ground (arith, bad),
              same ∙ unwritten,
              ap (λ (x : ActionResponse). x.queue) (sym is_answer),
            ),
          )
      | inr (good, e5) ↦
          let (q, is_queue, guards) =
            confirm_allowed-IsGuarded env user_id product_id below dto draft identity mapped quality
              v u r is_it e5 in
          (
            confirmed,
            there,
            inr (
              ground (arith, good),
              (q, is_queue, subst (λ w. IsGuardedQueue env user_id dto w q) (sym same) guards),
            ),
          )
    ]
