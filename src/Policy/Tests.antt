-- ===== src/Policy/Tests.antt =====
-- Runs of `evaluate`, and its theorems at concrete inputs.
use bazos.Base.{ℕ, ◌≡◌, ◌≤◌, ◌<◌, ◌↔◌, ◌⊎◌, none, some, true, false, arith}
use bazos.Gate.{PolicyEvaluationResult}
use bazos.Store.{BazosIdentity, by_key}
use bazos.Policy.{evaluate}
use bazos.Policy.Permitted.{MayPublish}
use bazos.Policy.Refinement.{evaluate-MayPublish_iff, evaluate-delay}
use bazos.Fixtures.{shop, open_day, request, halves}

halves_below : (n : ℕ) → 0 < n → halves n < n
halves_below n h = ground arith

evaluate-MayPublish_iff_example : ((evaluate open_day shop request).allowed ≡ true) ↔ (
    (i : BazosIdentity) × (by_key (λ i. i.id) 1 shop.identities ≡ some i)
    × MayPublish open_day shop request i)
evaluate-MayPublish_iff_example = evaluate-MayPublish_iff open_day shop request

evaluate-delay_example :
    (((evaluate open_day shop request).allowed ≡ true)
      × (d : ℕ) × ((evaluate open_day shop request).selected_pacing_delay_seconds ≡ some d)
      × (60 ≤ d)
      × (d ≤ 180))
    ⊎ (((evaluate open_day shop request).allowed ≡ false)
        × ((evaluate open_day shop request).selected_pacing_delay_seconds ≡ none))
evaluate-delay_example = evaluate-delay open_day shop request halves_below

decision : PolicyEvaluationResult
decision = evaluate open_day shop request
