-- ===== src/Policy/Gates.antt =====
-- The gates that read the database and the caller's evidence: each returns the failures that it
-- pushes.
use bazos.Base.{
  ℕ, ◌+◌, ◌-◌, ◌*◌, Option, none, some, List, [], ◌∷◌, Bool, true, not, ◌&&◌, ◌||◌, if◌then◌else◌,
  leb, ltb, ◌==◌, nat_eq, string_eq, option_eq, String, any, select,
}
use bazos.Gate.{
  PolicyGateFailure, consent_document_version, ConsentScope, consent_scope_eq, consent_missing,
  identity_verification_expired, pacing_too_soon, category_cooldown, local_duplicate,
  public_duplicate_check_missing, public_duplicate, category_missing_or_blocked,
  content_policy_not_validated, content_policy_fail,
}
use bazos.Store.{Store, BazosAd, BazosCategory, BazosIdentityConsent, BazosIdentityCategoryCadence}
use bazos.Policy.Input.{
  fails, fails_until, Evidence, category_cooldown_hours, public_duplicate_evidence_ttl_ms,
  content_policy_evidence_ttl_ms,
}

-- `orderBy: { grantedAt: 'desc' }` and the first row.
newer : BazosIdentityConsent → Option BazosIdentityConsent → Option BazosIdentityConsent
newer c none = some c
newer c (some d) = if ltb c.granted_at d.granted_at then some d else some c

unfoldable pub newest : List BazosIdentityConsent → Option BazosIdentityConsent
unfolding newer
newest [] = none
newest (c ∷ cs) = newer c (newest cs)

abbrev pub is_live : ℕ → ConsentScope → BazosIdentityConsent → Bool
is_live identity_id scope c =
    c.identity_id == identity_id && c.scope == scope && c.revoked_at == none

unfoldable pub live_consent : ℕ → ConsentScope → Store → Option BazosIdentityConsent
unfolding newest select
live_consent identity_id scope s = newest (select (is_live identity_id scope) s.consents)

unfoldable pub consent_gate : Option BazosIdentityConsent → List PolicyGateFailure
consent_gate none = fails consent_missing
consent_gate (some c) =
    if c.document_version == consent_document_version then [] else fails consent_missing

unfoldable pub verification_gate : ℕ → Option ℕ → List PolicyGateFailure
verification_gate now none = []
verification_gate now (some t) =
    if leb t now then fails_until identity_verification_expired t else []

unfoldable pub pacing_gate : ℕ → Option ℕ → List PolicyGateFailure
pacing_gate now none = []
pacing_gate now (some t) = if ltb now t then fails_until pacing_too_soon t else []

abbrev pub next_allowed_at : BazosIdentityCategoryCadence → ℕ
next_allowed_at c = c.last_published_at + category_cooldown_hours * 60 * 60 * 1000

unfoldable pub cooldown_gate : ℕ → Option BazosIdentityCategoryCadence → List PolicyGateFailure
cooldown_gate now none = []
cooldown_gate now (some c) =
    if ltb now (next_allowed_at c) then fails_until category_cooldown (next_allowed_at c) else []

abbrev pub is_cadence_of : ℕ → String → BazosIdentityCategoryCadence → Bool
is_cadence_of identity_id category c = c.identity_id == identity_id && c.bazos_category == category

-- `...(adId ? { id: { not: adId } } : {})`
abbrev pub is_other_ad : Option ℕ → BazosAd → Bool
is_other_ad none a = true
is_other_ad (some ad_id) a = not (a.id == ad_id)

abbrev pub is_local_duplicate : ℕ → ℕ → Option ℕ → BazosAd → Bool
is_local_duplicate identity_id product_id ad_id a =
    a.identity_id == some identity_id
    && a.product_id == some product_id
    && a.is_active
    && is_other_ad ad_id a

unfoldable pub duplicate_gate : ℕ → Option ℕ → Option ℕ → List BazosAd → List PolicyGateFailure
unfolding any
duplicate_gate identity_id none ad_id ads = []
duplicate_gate identity_id (some product_id) ad_id ads =
    if any (is_local_duplicate identity_id product_id ad_id) ads then fails local_duplicate else []

unfoldable pub is_trusted_evidence : Option String → Bool
is_trusted_evidence source = source == some "manual_review" || source == some "trusted_backend"

unfoldable pub is_evidence_expired : Option ℕ → ℕ → ℕ → Bool
is_evidence_expired none now ttl_ms = true
is_evidence_expired (some checked_at) now ttl_ms =
    ltb now checked_at || ltb ttl_ms (now - checked_at)

unfoldable pub public_duplicate_gate : ℕ → Option Evidence → List PolicyGateFailure
unfolding is_trusted_evidence is_evidence_expired
public_duplicate_gate now none = fails public_duplicate_check_missing
public_duplicate_gate now (some e) =
    if not (is_trusted_evidence e.source)
    then fails public_duplicate_check_missing
    else (if is_evidence_expired e.checked_at now public_duplicate_evidence_ttl_ms
        then fails public_duplicate_check_missing
        else (if e.finding then fails public_duplicate else []))

unfoldable pub content_policy_gate : ℕ → Option Evidence → List PolicyGateFailure
unfolding is_trusted_evidence is_evidence_expired
content_policy_gate now none = fails content_policy_not_validated
content_policy_gate now (some e) =
    if not (is_trusted_evidence e.source)
    then fails content_policy_not_validated
    else (if is_evidence_expired e.checked_at now content_policy_evidence_ttl_ms
        then fails content_policy_not_validated
        else (if e.finding then [] else fails content_policy_fail))

abbrev pub is_mapping_of : String → BazosCategory → Bool
is_mapping_of category c = c.bazos_category == category && c.is_active

unfoldable pub category_gate : String → List BazosCategory → List PolicyGateFailure
unfolding any
category_gate category cs =
    if any (is_mapping_of category) cs then [] else fails category_missing_or_blocked
