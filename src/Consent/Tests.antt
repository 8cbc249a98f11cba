-- ===== src/Consent/Tests.antt =====
-- The theorems on consent at concrete inputs.
use bazos.Base.{
  ◌≡◌, ◌≢◌, ◌⊎◌, ◌↔◌, refl, none, some, [], ◌∷◌, ◌++◌, map, true, false, select, length,
}
use bazos.Gate.{publish, consent_document_version}
use bazos.Store.{ok, err, refused}
use bazos.Policy.{evaluate}
use bazos.Policy.Gates.{is_live, consent_gate, live_consent}
use bazos.Consent.{GrantConsentInput, consent_row, grant, revoke, status}
use bazos.Consent.Laws.{
  grant-live, grant_superseded, revoke-live, grant-status, revoke-evaluate_refused, consents_kept,
  unstamped, status-consent_gate_iff,
}
use bazos.Fixtures.{shop, open_day, request, noon}

abbrev renewal : GrantConsentInput
renewal = record {
  identity_id = 1;
  user_id = "eva";
  scope = none;
  document_version = consent_document_version;
  ip = some "10.0.0.1";
  user_agent = none;
}

abbrev outdated : GrantConsentInput
outdated = record renewal { document_version = "v0" }

grant-live_example :
    ((grant noon renewal shop).0 ≡ ok (consent_row noon renewal 100))
    × (select (is_live 1 publish) (grant noon renewal shop).1.consents
        ≡ consent_row noon renewal 100 ∷ [])
grant-live_example = grant-live noon renewal shop refl

outdated_version : outdated.document_version ≢ consent_document_version
outdated_version e = cc

grant_superseded_example : grant noon outdated shop ≡ (err refused, shop)
grant_superseded_example = grant_superseded noon outdated shop outdated_version

revoke-live_example :
    ((revoke noon 1 publish shop).0 ≡ ok (length (select (is_live 1 publish) shop.consents)))
    × (select (is_live 1 publish) (revoke noon 1 publish shop).1.consents ≡ [])
revoke-live_example = revoke-live noon 1 publish shop

grant-status_example : (status 1 publish (grant noon renewal shop).1).granted ≡ true
grant-status_example = grant-status noon renewal shop refl

status-consent_gate_iff_example :
    ((status 1 publish shop).granted ≡ true) ↔ (consent_gate (live_consent 1 publish shop) ≡ [])
status-consent_gate_iff_example = status-consent_gate_iff 1 shop

revoke-evaluate_refused_example :
    (evaluate open_day (revoke noon 1 publish shop).1 request).allowed ≡ false
revoke-evaluate_refused_example = revoke-evaluate_refused noon 1 shop open_day request refl

consents_kept_example :
    (map unstamped (revoke noon 1 publish shop).1.consents ≡ map unstamped shop.consents)
    × ((map unstamped (grant noon renewal shop).1.consents ≡ map unstamped shop.consents)
        ⊎ (map unstamped (grant noon renewal shop).1.consents
            ≡ map unstamped shop.consents ++ consent_row noon renewal 100 ∷ []))
consents_kept_example = consents_kept noon 1 publish renewal shop
