-- ===== src/SellAction/Tests.antt =====
-- The theorems on the sell action, for the draft of a bicycle.
use bazos.Base.{
  ℕ, ◌<◌, ◌≡◌, ◌≢◌, refl, Option, none, some, [], ◌∷◌, true, false, ◌⊎◌, arith, pos, ℤ, All, Exists,
  to_lower, lower_code, find_first, update_where, select, sort_by, insert_by, any, truthy, or_else,
  ℕ_discrete, String-discrete, Optional-discrete, Codes-discrete,
}
use bazos.Gate.{ConsentScope-discrete}
use bazos.Store.{
  Store, BazosAd, Outcome, ok, err, PublishStatus-discrete, AttemptStatus-discrete,
  ReviewState-discrete, SessionState-discrete, IdentityStatus-discrete, ◌>>=◌,
}
use bazos.Store.Runs.{Ends}
use bazos.Policy.{evaluate, gate_failures, identity_gates}
use bazos.Policy.Gates.{
  live_consent, consent_gate, cooldown_gate, duplicate_gate, public_duplicate_gate,
  content_policy_gate, category_gate,
}
use bazos.Policy.Input.{ready, ReadinessIssue, Readiness}
use bazos.Policy.Sources.{
  evaluate_readiness, evaluate_warehouse_availability, evaluate_catalog_product_quality,
  is_catalog_bundle_readiness, is_blocking, is_bundle_marker, lowered,
}
use bazos.Publisher.Queue.{
  Enqueued, enqueue_draft, enqueue_new, queue_attempt, find_newest, find_ad_for_user,
  assert_publishable_draft, consult, is_identity_of_user,
}
use bazos.Ad.{evaluate_publish_policy, find_by_id_for_user}
use bazos.SellAction.Quality.{evaluate_catalog_quality, quality_of}
use bazos.SellAction.Stock.{resolve_warehouse_stock, normalize_stock_quantity}
use bazos.SellAction.Draft.{SellEnv, PrepareCatalogSellActionDto, find_or_create_draft}
use bazos.SellAction.Shown.{confirm_publish}
use bazos.SellAction.Action.{
  ActionResponse, ConfirmCatalogSellActionDto, prepare, confirm, is_draft_for_product,
  find_draft_for_product, find_identity_for_user, build_catalog_quality_blocked_response,
}
use bazos.SellAction.Confirmed.{IsGuardedQueue, IsNamedDraft, confirm-IsGuarded}
use bazos.SellAction.Prepared.{IsPrepared, find_or_create_draft-IsPrepared}
use bazos.SellAction.Quiet.{prepare-IsQuiet}
use bazos.SellAction.Preflight.{evaluate_catalog_quality-allowed}
use bazos.Fixtures.{shop, bicycle, open_day, fine_readiness, clean, halves}

abbrev selling : SellEnv
selling = record {
  publisher = record { policy = open_day; edit_password = "secret" };
  total_available = λ id. some (some (pos 2));
  get_product_readiness = λ id. ready fine_readiness;
  catalog_client = none;
  by_created_at = λ ads. ads;
  by_updated_at = λ ads. ads;
}

abbrev confirmation : ConfirmCatalogSellActionDto
confirmation = record {
  ad_id = 20;
  confirmed = true;
  enqueue = record {
    public_duplicate_check = some (clean false);
    content_policy = some (clean true);
    price_option = none;
  };
}

abbrev offer : PrepareCatalogSellActionDto
offer = record {
  identity_id = 1;
  title = "Bicycle";
  description = none;
  price = 100000;
  rubric = none;
  price_option = none;
  category = "sport";
  location = none;
  stock_quantity = some 5;
  media = [];
  media_urls = "https://x/1" ∷ [];
}

-- The value of a run, which is some other value where it throws.
abbrev value_or {ℓ} : {A : Type ℓ} → A → Outcome A → A
value_or x (ok a) = a
value_or x (err e) = x

abbrev no_answer : ActionResponse
no_answer =
    build_catalog_quality_blocked_response 70 none none false
      (evaluate_catalog_quality (ready fine_readiness))

abbrev confirmed_answer : ActionResponse
confirmed_answer = value_or no_answer (confirm selling "eva" 70 confirmation shop).0

abbrev confirmed_shop : Store
confirmed_shop = (confirm selling "eva" 70 confirmation shop).1

halves-IsBounded : (n : ℕ) → 0 < n → halves n < n
halves-IsBounded n h = ground arith

confirmed-Ends : Ends (confirm selling "eva" 70 confirmation) shop confirmed_answer confirmed_shop
unfolding confirm find_draft_for_product is_draft_for_product enqueue_draft enqueue_new
    queue_attempt find_ad_for_user find_newest assert_publishable_draft consult is_identity_of_user
    PublishStatus-discrete ◌>>=◌ evaluate gate_failures identity_gates live_consent consent_gate
    cooldown_gate duplicate_gate evaluate_warehouse_availability evaluate_catalog_product_quality
    is_catalog_bundle_readiness is_blocking public_duplicate_gate content_policy_gate category_gate
    find_first update_where select sort_by insert_by any truthy or_else ℕ_discrete String-discrete
    Optional-discrete Codes-discrete AttemptStatus-discrete ReviewState-discrete
    SessionState-discrete IdentityStatus-discrete ConsentScope-discrete evaluate_catalog_quality
    quality_of
confirmed-Ends = record { value = refl; store = refl }

confirm-IsGuarded_example :
    (true ≡ true)
    × Exists (IsNamedDraft 20 70 "eva" shop) shop.ads
    × ((((evaluate_catalog_quality (ready fine_readiness)).allowed ≡ false)
          × (shop ≡ confirmed_shop)
          × (confirmed_answer.queue ≡ none))
        ⊎ (((evaluate_catalog_quality (ready fine_readiness)).allowed ≡ true)
            × ((q : Enqueued) × (confirmed_answer.queue ≡ some q)
                × IsGuardedQueue selling "eva" confirmation shop q)))
confirm-IsGuarded_example =
    confirm-IsGuarded selling "eva" 70 confirmation shop confirmed_shop confirmed_answer
      halves-IsBounded confirmed-Ends

abbrev prepared_draft : BazosAd
prepared_draft = value_or bicycle (find_or_create_draft selling "eva" 70 offer shop).0

abbrev drafted_shop : Store
drafted_shop = (find_or_create_draft selling "eva" 70 offer shop).1

drafted-Ends : Ends (find_or_create_draft selling "eva" 70 offer) shop prepared_draft drafted_shop
unfolding find_or_create_draft ◌>>=◌ select find_first update_where ℕ_discrete Optional-discrete
    PublishStatus-discrete
drafted-Ends = record { value = refl; store = refl }

find_or_create_draft-IsPrepared_example :
    (total : Option ℤ) × (some (some (pos 2)) ≡ some total)
    × IsPrepared total (some 5) prepared_draft
find_or_create_draft-IsPrepared_example =
    find_or_create_draft-IsPrepared selling "eva" 70 offer shop drafted_shop prepared_draft
      drafted-Ends

-- Of the five that are asked for, the two that are there are offered.
offered : prepared_draft.stock_quantity ≡ 2
unfolding find_or_create_draft ◌>>=◌ select find_first update_where ℕ_discrete Optional-discrete
    PublishStatus-discrete resolve_warehouse_stock normalize_stock_quantity
offered = refl

abbrev prepared_answer : ActionResponse
prepared_answer = value_or no_answer (prepare selling "eva" 70 offer shop).0

abbrev prepared_shop : Store
prepared_shop = (prepare selling "eva" 70 offer shop).1

prepared-Ends : Ends (prepare selling "eva" 70 offer) shop prepared_answer prepared_shop
unfolding prepare find_identity_for_user find_or_create_draft evaluate_publish_policy
    find_by_id_for_user is_identity_of_user any consult ◌>>=◌ select find_first update_where truthy
    ℕ_discrete Optional-discrete String-discrete PublishStatus-discrete evaluate_catalog_quality
    quality_of is_catalog_bundle_readiness is_bundle_marker lowered to_lower lower_code
    Codes-discrete
prepared-Ends = record { value = refl; store = refl }

prepare-IsQuiet_example :
    (prepared_answer.queue ≡ none)
    × (prepared_answer.next ≢ confirm_publish)
    × All (λ a. Exists (λ b. b ≡ a) shop.attempts) prepared_shop.attempts
    × (((evaluate_catalog_quality (ready fine_readiness)).allowed ≡ true) ⊎ (shop ≡ prepared_shop))
prepare-IsQuiet_example =
    prepare-IsQuiet selling "eva" 70 offer shop prepared_shop prepared_answer prepared-Ends

abbrev minor_issue : ReadinessIssue
minor_issue = record { severity = some "warning"; code = some "short_description" }

abbrev minor : Readiness
minor = record fine_readiness { issues = some (minor_issue ∷ []) }

minor_passes : evaluate_readiness (ready minor) ≡ []
unfolding evaluate_readiness is_catalog_bundle_readiness is_bundle_marker is_blocking lowered
    to_lower lower_code any truthy Codes-discrete String-discrete Optional-discrete ℕ_discrete
minor_passes = refl

evaluate_catalog_quality-allowed_example : (evaluate_catalog_quality (ready minor)).allowed ≡ true
evaluate_catalog_quality-allowed_example =
    evaluate_catalog_quality-allowed minor (minor_issue ∷ []) refl minor_passes
