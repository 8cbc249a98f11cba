-- ===== src/Policy.antt =====
-- shared/bazos/policy/publish-policy.service.ts: `evaluate`, the decision on one publication. The
-- clock, the random source and the Warehouse and Catalog clients are the environment.
pub mod Input
pub mod Gates
pub mod Sources
pub mod Permitted
pub mod GateLaws
pub mod Refinement
mod Tests
use bazos.Base.{
  ℕ, ◌+◌, ◌-◌, Option, none, some, List, [], ◌∷◌, ◌++◌, Bool, true, false, if◌then◌else◌, leb, ◌==◌,
  find_first,
}
use bazos.Gate.{
  PolicyGate, PolicyGateFailure, PolicyEvaluationResult, publish, identity_not_verified,
  identity_review_blocked, identity_session_not_active, active_ad_cap_reached,
}
use bazos.Store.{
  Store, BazosIdentity, IdentityStatus, verified, clear, SessionState, identity_status_eq,
  review_state_eq, session_state_eq, by_key,
}
use Input.{
  PolicyEnv, PolicyCheckInput, fails, max_active_ads, pacing_min_seconds, pacing_max_seconds,
}
use Gates.{
  live_consent, consent_gate, verification_gate, pacing_gate, cooldown_gate, is_cadence_of,
  duplicate_gate, public_duplicate_gate, content_policy_gate, category_gate,
}
use Sources.{evaluate_warehouse_availability, evaluate_catalog_product_quality}

-- Gates 1 to 6, which look at the identity alone.
unfoldable pub identity_gates : ℕ → BazosIdentity → List PolicyGateFailure
unfolding verification_gate pacing_gate
identity_gates now i =
    (if i.status == verified then [] else fails identity_not_verified)
    ++ ((if i.review_state == clear then [] else fails identity_review_blocked)
        ++ (verification_gate now i.verification_expires_at
            ++ ((if i.session_state == SessionState.active
                  then []
                  else fails identity_session_not_active)
                ++ ((if leb max_active_ads i.active_ad_count
                      then fails active_ad_cap_reached
                      else [])
                    ++ pacing_gate now i.next_publish_not_before))))

unfoldable pub select_pacing_delay_seconds : (ℕ → ℕ) → ℕ
select_pacing_delay_seconds random =
    random (pacing_max_seconds - pacing_min_seconds + 1) + pacing_min_seconds

abbrev is_empty : List PolicyGateFailure → Bool
is_empty [] = true
is_empty (f ∷ fs) = false

unfoldable pub build_result : PolicyEnv → List PolicyGateFailure → PolicyEvaluationResult
unfolding select_pacing_delay_seconds
build_result env failures = record {
  allowed = is_empty failures;
  failures = failures;
  selected_pacing_delay_seconds =
      if is_empty failures then some (select_pacing_delay_seconds env.random) else none;
  evaluated_at = env.now;
}

-- Gates 0 to 13 in the order of the code.
unfoldable pub gate_failures :
    PolicyEnv → Store → PolicyCheckInput → BazosIdentity → List PolicyGateFailure
gate_failures env s input i =
    consent_gate (live_consent input.identity_id publish s)
    ++ (identity_gates env.now i
        ++ (cooldown_gate env.now
              (find_first (is_cadence_of input.identity_id input.bazos_category) s.cadences)
            ++ (duplicate_gate input.identity_id input.product_id input.ad_id s.ads
                ++ (evaluate_warehouse_availability env.warehouse_client input.product_id
                    ++ (evaluate_catalog_product_quality env.catalog_client input.product_id
                        ++ (public_duplicate_gate env.now input.public_duplicate_check
                            ++ (category_gate input.bazos_category s.categories
                                ++ content_policy_gate env.now input.content_policy)))))))

identity_failures :
    PolicyEnv → Store → PolicyCheckInput → Option BazosIdentity → List PolicyGateFailure
identity_failures env s input none = fails identity_not_verified
identity_failures env s input (some i) = gate_failures env s input i

unfoldable pub evaluate : PolicyEnv → Store → PolicyCheckInput → PolicyEvaluationResult
unfolding identity_failures build_result
evaluate env s input =
    build_result env
      (identity_failures env s input (by_key (λ i. i.id) input.identity_id s.identities))
