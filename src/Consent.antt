-- ===== src/Consent.antt =====
-- shared/bazos/consent/bazos-consent.service.ts. `now` is the time that `new Date()` and the
-- default of `grantedAt` give during the call.
pub mod Laws
mod Tests
use bazos.Base.{
  ℕ, Option, none, some, List, Bool, true, false, not, String, ◌==◌, string_eq, nat_eq, ltb,
  if◌then◌else◌, ◌&&◌, select, sort_by,
}
use bazos.Gate.{ConsentScope, publish, consent_document_version}
use bazos.Store.{
  Store, BazosIdentityConsent, M, return, ◌>>=◌, ◌>>◌, throw_if, refused, update_many, create,
  bazos_identity_consent,
}
use bazos.Policy.Gates.{live_consent, is_live}

pub record GrantConsentInput : Type 0 where
  pub identity_id : ℕ
  pub user_id : String
  pub scope : Option ConsentScope
  pub document_version : String
  pub ip : Option String
  pub user_agent : Option String

pub record ConsentStatus : Type 0 where
  pub granted : Bool
  pub needs_renewal : Bool
  pub current_version : String
  pub granted_at : Option ℕ
  pub granted_version : Option String

-- `scope ?? CONSENT_SCOPE.PUBLISH`
abbrev pub scope_or_publish : Option ConsentScope → ConsentScope
scope_or_publish none = publish
scope_or_publish (some scope) = scope

abbrev pub stamp : ℕ → BazosIdentityConsent → BazosIdentityConsent
stamp now c = record c { revoked_at = some now }

abbrev pub consent_row : ℕ → GrantConsentInput → ℕ → BazosIdentityConsent
consent_row now input id = record {
  id = id;
  identity_id = input.identity_id;
  user_id = input.user_id;
  scope = scope_or_publish input.scope;
  document_version = input.document_version;
  granted_at = now;
  revoked_at = none;
  ip = input.ip;
  user_agent = input.user_agent;
}

unfoldable pub revoke : ℕ → ℕ → ConsentScope → M ℕ
unfolding update_many
revoke now identity_id scope =
    update_many bazos_identity_consent (is_live identity_id scope) (stamp now)

unfoldable pub grant : ℕ → GrantConsentInput → M BazosIdentityConsent
grant now input = do
  throw_if (not (input.document_version == consent_document_version)) refused
  _ ←
      update_many bazos_identity_consent (is_live input.identity_id (scope_or_publish input.scope))
        (stamp now)
  create bazos_identity_consent (consent_row now input)

status_of : Option BazosIdentityConsent → ConsentStatus
status_of none = record {
  granted = false;
  needs_renewal = false;
  current_version = consent_document_version;
  granted_at = none;
  granted_version = none;
}
status_of (some c) =
    let current = c.document_version == consent_document_version in
    record {
      granted = current;
      needs_renewal = not current;
      current_version = consent_document_version;
      granted_at = some c.granted_at;
      granted_version = some c.document_version;
    }

unfoldable pub status : ℕ → ConsentScope → Store → ConsentStatus
unfolding status_of
status identity_id scope s = status_of (live_consent identity_id scope s)

abbrev later : BazosIdentityConsent → BazosIdentityConsent → Bool
later c d = ltb d.granted_at c.granted_at

unfoldable pub history : ℕ → Store → List BazosIdentityConsent
history identity_id s = sort_by later (select (λ c. c.identity_id == identity_id) s.consents)
