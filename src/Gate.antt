-- ===== src/Gate.antt =====
-- shared/bazos/policy/publish-policy.types.ts: the gates, and the result of an evaluation. The
-- message of a failure is display text and is left out.
use bazos.Base.{ℕ, Option, List, Bool, String, Eq}

-- `CONSENT_SCOPE` has one value.
pub data ConsentScope : Type 0 where
  publish : ConsentScope

abbrev pub consent_document_version : String
consent_document_version = "bazos-publish-consent-v1"

pub data PolicyGate : Type 0 where
  consent_missing identity_not_verified identity_review_blocked identity_verification_expired :
      PolicyGate
  identity_session_not_active active_ad_cap_reached pacing_too_soon category_cooldown : PolicyGate
  local_duplicate warehouse_stock_unavailable catalog_quality_blocked
        catalog_bundle_publication_blocked :
      PolicyGate
  public_duplicate_check_missing public_duplicate category_missing_or_blocked
        content_policy_not_validated :
      PolicyGate
  content_policy_fail : PolicyGate

unfoldable pub PolicyGate-discrete : Discrete PolicyGate
PolicyGate-discrete = hlevel

instance abbrev pub policy_gate_eq : Eq PolicyGate
policy_gate_eq = record { decides = PolicyGate-discrete }

unfoldable pub ConsentScope-discrete : Discrete ConsentScope
ConsentScope-discrete = hlevel

instance abbrev pub consent_scope_eq : Eq ConsentScope
consent_scope_eq = record { decides = ConsentScope-discrete }

pub record PolicyGateFailure : Type 0 where
  pub gate : PolicyGate
  pub blocked_until : Option ℕ

pub record PolicyEvaluationResult : Type 0 where
  pub allowed : Bool
  pub failures : List PolicyGateFailure
  pub selected_pacing_delay_seconds : Option ℕ
  pub evaluated_at : ℕ
