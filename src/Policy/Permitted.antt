-- ===== src/Policy/Permitted.antt =====
-- What a publication needs, said without the code: the thirteen gates of the comment above
-- `evaluate` in shared/bazos/policy/publish-policy.service.ts.
use bazos.Base.{
  ℕ, ◌+◌, ◌*◌, ◌≤◌, ◌<◌, ◌≡◌, ◌≢◌, ◌⊎◌, Option, none, some, List, Bool, true, false, String, ℤ, pos,
  negsuc, All, Exists, codes, find_first,
}
use bazos.Gate.{publish, consent_document_version}
use bazos.Store.{
  Store, BazosAd, BazosCategory, BazosIdentity, BazosIdentityConsent, BazosIdentityCategoryCadence,
  verified, clear, SessionState,
}
use bazos.Policy.Input.{
  PolicyEnv, PolicyCheckInput, Evidence, ReadinessIssue, WarehouseReply, stock, warehouse_error,
  CatalogReply, ready, catalog_error, max_active_ads,
}
use bazos.Policy.Gates.{live_consent, is_cadence_of}
use bazos.Policy.Sources.{is_catalog_bundle_readiness, issues_of, lowered}

abbrev pub IsCurrentConsent : Option BazosIdentityConsent → Type 0
IsCurrentConsent none = ⊥
IsCurrentConsent (some c) = c.document_version ≡ consent_document_version

-- The time, where there is one, is still to come.
abbrev pub IsAhead : ℕ → Option ℕ → Type 0
IsAhead now none = Unit
IsAhead now (some t) = now < t

-- The time, where there is one, has come.
abbrev pub HasPassed : ℕ → Option ℕ → Type 0
HasPassed now none = Unit
HasPassed now (some t) = t ≤ now

-- A day has gone by since the last publication.
abbrev pub HasCooled : ℕ → Option BazosIdentityCategoryCadence → Type 0
HasCooled now none = Unit
HasCooled now (some c) = c.last_published_at + 24 * 60 * 60 * 1000 ≤ now

-- Another active ad of the same identity offers the product.
abbrev pub IsTwin : ℕ → ℕ → Option ℕ → BazosAd → Type 0
IsTwin identity_id product_id ad_id a =
    (a.identity_id ≡ some identity_id)
    × (a.product_id ≡ some product_id)
    × (a.is_active ≡ true)
    × (ad_id ≢ some a.id)

abbrev pub HasNoTwin : ℕ → Option ℕ → Option ℕ → List BazosAd → Type 0
HasNoTwin identity_id none ad_id ads = Unit
HasNoTwin identity_id (some product_id) ad_id ads =
    All (λ a. ¬ IsTwin identity_id product_id ad_id a) ads

abbrev pub IsPositive : Option ℤ → Type 0
IsPositive none = ⊥
IsPositive (some (pos n)) = 0 < n
IsPositive (some (negsuc n)) = ⊥

abbrev pub IsInStock : WarehouseReply → Type 0
IsInStock warehouse_error = ⊥
IsInStock (stock rows total) = (0 < rows) × IsPositive total

abbrev pub IsStocked : Option (ℕ → WarehouseReply) → Option ℕ → Type 0
IsStocked client none = ⊥
IsStocked none (some product_id) = ⊥
IsStocked (some client) (some product_id) = IsInStock (client product_id)

abbrev pub IsBlocking : ReadinessIssue → Type 0
IsBlocking issue = lowered issue.severity ≡ codes "blocking"

abbrev pub IsReady : CatalogReply → Type 0
IsReady catalog_error = ⊥
IsReady (ready r) =
    (is_catalog_bundle_readiness r ≡ false)
    × All (λ issue. ¬ IsBlocking issue) (issues_of r.issues)
    × (r.publishable ≢ some false)

abbrev pub IsPublishable : Option (ℕ → CatalogReply) → Option ℕ → Type 0
IsPublishable client none = ⊥
IsPublishable none (some product_id) = ⊥
IsPublishable (some client) (some product_id) = IsReady (client product_id)

-- Checked within the last hour, and not in the future.
abbrev pub IsFresh : ℕ → Option ℕ → Type 0
IsFresh now none = ⊥
IsFresh now (some t) = (t ≤ now) × (now ≤ t + 60 * 60 * 1000)

-- Evidence from a trusted source, fresh, with the finding that is wanted.
abbrev pub IsProven : ℕ → Bool → Option Evidence → Type 0
IsProven now wanted none = ⊥
IsProven now wanted (some e) =
    ((e.source ≡ some "manual_review") ⊎ (e.source ≡ some "trusted_backend"))
    × IsFresh now e.checked_at
    × (e.finding ≡ wanted)

abbrev pub IsMapped : String → List BazosCategory → Type 0
IsMapped category = Exists (λ c. (c.bazos_category ≡ category) × (c.is_active ≡ true))

-- The identity may publish the product at this moment.
pub record MayPublish (env : PolicyEnv) (s : Store) (input : PolicyCheckInput) (i : BazosIdentity)
    : Type 0 where
  pub consented : IsCurrentConsent (live_consent input.identity_id publish s)
  pub is_verified : i.status ≡ verified
  pub is_clear : i.review_state ≡ clear
  pub unexpired : IsAhead env.now i.verification_expires_at
  pub in_session : i.session_state ≡ SessionState.active
  pub below_cap : i.active_ad_count < max_active_ads
  pub paced : HasPassed env.now i.next_publish_not_before
  pub cooled :
      HasCooled env.now
        (find_first (is_cadence_of input.identity_id input.bazos_category) s.cadences)
  pub no_twin : HasNoTwin input.identity_id input.product_id input.ad_id s.ads
  pub stocked : IsStocked env.warehouse_client input.product_id
  pub publishable : IsPublishable env.catalog_client input.product_id
  pub no_public_duplicate : IsProven env.now false input.public_duplicate_check
  pub mapped : IsMapped input.bazos_category s.categories
  pub content_passed : IsProven env.now true input.content_policy
