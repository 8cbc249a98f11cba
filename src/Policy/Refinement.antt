-- ===== src/Policy/Refinement.antt =====
-- `evaluate` decides `MayPublish`.
use bazos.Base.{
  ℕ, ◌+◌, ◌≤◌, ◌<◌, ◌≡◌, ◌↔◌, ◌⊎◌, refl, sym, inl, inr, none, some, List, [], ◌∷◌, ◌++◌, true,
  false, arith, append-eq-nil_iff, find_first, codes_eq, Option-cases, subst, some_inj,
}
use bazos.Gate.{PolicyGateFailure, publish}
use bazos.Store.{Store, BazosIdentity, by_key, verified, clear, SessionState}
use bazos.Policy.Input.{PolicyEnv, PolicyCheckInput, max_active_ads}
use bazos.Policy.Gates.{live_consent, is_cadence_of}
use bazos.Policy.Permitted.{
  IsCurrentConsent, IsAhead, HasPassed, HasCooled, HasNoTwin, IsStocked, IsPublishable, IsProven,
  IsMapped, MayPublish,
}
use bazos.Policy.{is_empty, build_result, gate_failures, identity_failures, evaluate}
use bazos.Policy.GateLaws.{
  consent_gate_iff, cooldown_gate_iff, duplicate_gate_iff, warehouse_iff, quality_iff,
  public_duplicate_iff, content_policy_iff, category_iff, identity_gates_iff,
}

-- The failures of two groups of gates are none when each group has none.
none_of_both :
    {P Q : Type 0} {xs ys : List PolicyGateFailure}
    → (xs ≡ []) ↔ P
    → (ys ≡ []) ↔ Q
    → ((xs ++ ys ≡ []) ↔ (P × Q))
none_of_both {xs} {ys} h k = ground (arith, append-eq-nil_iff xs ys)

-- The gates as one conjunction, in the order of the code.
abbrev AllGates : PolicyEnv → Store → PolicyCheckInput → BazosIdentity → Type 0
AllGates env s input i =
    IsCurrentConsent (live_consent input.identity_id publish s)
    × (((i.status ≡ verified)
          × (i.review_state ≡ clear)
          × IsAhead env.now i.verification_expires_at
          × (i.session_state ≡ SessionState.active)
          × (i.active_ad_count < max_active_ads)
          × HasPassed env.now i.next_publish_not_before)
        × (HasCooled env.now
              (find_first (is_cadence_of input.identity_id input.bazos_category) s.cadences)
            × (HasNoTwin input.identity_id input.product_id input.ad_id s.ads
                × (IsStocked env.warehouse_client input.product_id
                    × (IsPublishable env.catalog_client input.product_id
                        × (IsProven env.now false input.public_duplicate_check
                            × (IsMapped input.bazos_category s.categories
                                × IsProven env.now true input.content_policy)))))))

gates_iff :
    (env : PolicyEnv) (s : Store) (input : PolicyCheckInput) (i : BazosIdentity)
    → (gate_failures env s input i ≡ []) ↔ AllGates env s input i
unfolding gate_failures
gates_iff env s input i = none_of_both (consent_gate_iff _) (
    none_of_both (identity_gates_iff env.now i) (
      none_of_both (cooldown_gate_iff env.now _) (
        none_of_both (duplicate_gate_iff _ input.product_id input.ad_id s.ads) (
          none_of_both (warehouse_iff env.warehouse_client input.product_id) (
            none_of_both (quality_iff env.catalog_client input.product_id) (
              none_of_both (public_duplicate_iff env.now input.public_duplicate_check) (
                none_of_both (category_iff input.bazos_category s.categories)
                  (content_policy_iff env.now input.content_policy))))))))

AllGates-MayPublish :
    (env : PolicyEnv) (s : Store) (input : PolicyCheckInput) (i : BazosIdentity)
    → AllGates env s input i ↔ MayPublish env s input i
AllGates-MayPublish env s input i = (
  λ (c, ((v, r, x, a, n, p), (d, (t, (w, (q, (u, (m, o)))))))). record {
    consented = c;
    is_verified = v;
    is_clear = r;
    unexpired = x;
    in_session = a;
    below_cap = n;
    paced = p;
    cooled = d;
    no_twin = t;
    stocked = w;
    publishable = q;
    no_public_duplicate = u;
    mapped = m;
    content_passed = o;
  },
  λ h. (
    h.consented,
    (
      (h.is_verified, h.is_clear, h.unexpired, h.in_session, h.below_cap, h.paced),
      (
        h.cooled,
        (
          h.no_twin,
          (h.stocked, (h.publishable, (h.no_public_duplicate, (h.mapped, h.content_passed)))),
        ),
      ),
    ),
  ),
)

is_empty_iff : (fs : List PolicyGateFailure) → (is_empty fs ≡ true) ↔ (fs ≡ [])
is_empty_iff [] = ground arith
is_empty_iff (f ∷ fs) = ground arith

decides :
    (env : PolicyEnv) (s : Store) (input : PolicyCheckInput) (i : BazosIdentity)
    → (is_empty (gate_failures env s input i) ≡ true) ↔ MayPublish env s input i
decides env s input i = (
  λ e. (AllGates-MayPublish env s input i).0 ((gates_iff env s input i).0 ((is_empty_iff _).0 e)),
  λ h. (is_empty_iff _).1 ((gates_iff env s input i).1 ((AllGates-MayPublish env s input i).1 h)),
)

-- A publication is allowed exactly when the identity exists and every gate's condition holds.
pub evaluate-MayPublish_iff :
    (env : PolicyEnv) (s : Store) (input : PolicyCheckInput)
    → ((evaluate env s input).allowed ≡ true) ↔ (
        (i : BazosIdentity) × (by_key (λ i. i.id) input.identity_id s.identities ≡ some i)
        × MayPublish env s input i)
unfolding evaluate
evaluate-MayPublish_iff env s input =
    elim (Option-cases (by_key (λ i. i.id) input.identity_id s.identities)) [
      | inl missing ↦ rw (missing, identity_failures) ((λ e. cc), λ h. cc (h.1))
      | inr (i, found) ↦
          rw (found, identity_failures)
            (
              (λ e. (i, refl, (decides env s input i).0 e)),
              λ (j, same, h).
                  (decides env s input i).1
                    (subst (MayPublish env s input) (sym (some_inj same)) h),
            )
    ]

-- For a random source that keeps below its bound, an allowed publication has a delay of 60 to 180
-- seconds, and a refused one has no delay.
pub evaluate-delay :
    (env : PolicyEnv) (s : Store) (input : PolicyCheckInput)
    → ((n : ℕ) → 0 < n → env.random n < n)
    → (((evaluate env s input).allowed ≡ true)
        × (d : ℕ) × ((evaluate env s input).selected_pacing_delay_seconds ≡ some d)
        × (60 ≤ d)
        × (d ≤ 180))
      ⊎ (((evaluate env s input).allowed ≡ false)
          × ((evaluate env s input).selected_pacing_delay_seconds ≡ none))
unfolding evaluate
evaluate-delay env s input below =
    by_cases (identity_failures env s input (by_key (λ i. i.id) input.identity_id s.identities))
  where
    by_cases :
        (fs : List PolicyGateFailure)
        → (((build_result env fs).allowed ≡ true)
            × (d : ℕ) × ((build_result env fs).selected_pacing_delay_seconds ≡ some d)
            × (60 ≤ d)
            × (d ≤ 180))
          ⊎ (((build_result env fs).allowed ≡ false)
              × ((build_result env fs).selected_pacing_delay_seconds ≡ none))
    by_cases [] =
        inl (refl, env.random 121 + 60, refl, omega arith, omega (arith, below 121 (omega arith)))
    by_cases (f ∷ fs) = inr (refl, refl)
