-- ===== src/Consent/Laws.antt =====
-- Granting, renewing and revoking consent.
use bazos.Policy.Permitted.{IsCurrentConsent}
use bazos.Policy.Refinement.{evaluate-MayPublish_iff}
use bazos.Policy.{evaluate}
use mathlib.Core.List.{append-nil, map-append}
use bazos.Base.{
  ℕ, ◌+◌, ◌≡◌, ◌≢◌, ◌↔◌, refl, Option, none, some, [], ◌∷◌, ◌++◌, map, true, false, arith, select,
  select-append, select-update_where_none, select-update_where_other, map-update_where, length,
  update_where, ◌==◌, nat_eq, option_eq, string_eq, ==-iff, ap, ◌∙◌, subst, inl, inr, Bool-cases,
  ◌⊎◌,
}
use bazos.Gate.{ConsentScope, publish, consent_document_version}
use bazos.Store.{Store, BazosIdentityConsent, ok, err, refused, ◌>>=◌}
use bazos.Policy.Input.{PolicyEnv, PolicyCheckInput}
use bazos.Policy.Gates.{live_consent, is_live, consent_gate}
use bazos.Consent.{
  GrantConsentInput, scope_or_publish, stamp, consent_row, grant, revoke, status, status_of,
}

stamp-not_live :
    (now i : ℕ) (scope : ConsentScope) (c : BazosIdentityConsent)
    → is_live i scope c ≡ true
    → is_live i scope (stamp now c) ≡ false
stamp-not_live now i scope c h = ground arith

granted : ℕ → GrantConsentInput → Store → Store
granted now input s = record s {
  consents =
      update_where (is_live input.identity_id (scope_or_publish input.scope)) (stamp now) s.consents
      ++ consent_row now input s.next_id ∷ [];
  next_id = s.next_id + 1;
}

grant_current :
    (now : ℕ) (input : GrantConsentInput) (s : Store)
    → input.document_version ≡ consent_document_version
    → grant now input s ≡ (ok (consent_row now input s.next_id), granted now input s)
unfolding grant granted ◌>>=◌
grant_current now input s current = ground arith

select-is_live_row :
    (now id : ℕ) (input : GrantConsentInput)
    → select
        (is_live input.identity_id (scope_or_publish input.scope))
        (consent_row now input id ∷ [])
      ≡ consent_row now input id ∷ []
unfolding select
select-is_live_row now id input = ground arith

granted-live :
    (now : ℕ) (input : GrantConsentInput) (s : Store)
    → select
        (is_live input.identity_id (scope_or_publish input.scope))
        (granted now input s).consents
      ≡ consent_row now input s.next_id ∷ []
unfolding granted
granted-live now input s =
    let p = is_live input.identity_id (scope_or_publish input.scope) in
    select-append p (update_where p (stamp now) s.consents) (consent_row now input s.next_id ∷ [])
    ∙ (ap (λ l. l ++ select p (consent_row now input s.next_id ∷ []))
          (select-update_where_none p (stamp now) (stamp-not_live now _ _) s.consents)
        ∙ select-is_live_row now s.next_id input)

-- After a grant under the current terms exactly one consent is live for its identity and scope, and
-- it is the one that the call returns.
pub grant-live :
    (now : ℕ) (input : GrantConsentInput) (s : Store)
    → input.document_version ≡ consent_document_version
    → ((grant now input s).0 ≡ ok (consent_row now input s.next_id))
      × (select
            (is_live input.identity_id (scope_or_publish input.scope))
            (grant now input s).1.consents
          ≡ consent_row now input s.next_id ∷ [])
grant-live now input s current =
    rw (grant_current now input s current) (refl, granted-live now input s)

-- Consent to other than the current terms is refused, and nothing is written.
pub grant_superseded :
    (now : ℕ) (input : GrantConsentInput) (s : Store)
    → input.document_version ≢ consent_document_version
    → grant now input s ≡ (err refused, s)
unfolding grant ◌>>=◌
grant_superseded now input s old = ground arith

other_row-not_live :
    (now id i : ℕ) (input : GrantConsentInput) (scope : ConsentScope)
    → i ≢ input.identity_id
    → select (is_live i scope) (consent_row now input id ∷ []) ≡ []
unfolding select
other_row-not_live now id i input scope other = ground arith

granted-select_other :
    (now : ℕ) (input : GrantConsentInput) (s : Store) (i : ℕ) (scope : ConsentScope)
    → i ≢ input.identity_id
    → select (is_live i scope) (granted now input s).consents ≡ select (is_live i scope) s.consents
unfolding granted
granted-select_other now input s i scope other =
    let p = is_live input.identity_id (scope_or_publish input.scope) in
    let q = is_live i scope in
    select-append q (update_where p (stamp now) s.consents) (consent_row now input s.next_id ∷ [])
    ∙ (ap (λ l. select q (update_where p (stamp now) s.consents) ++ l)
          (other_row-not_live now s.next_id i input scope other)
        ∙ (append-nil _
            ∙ select-update_where_other p q (stamp now) (λ c h. ground arith) (λ c h. ground arith)
                s.consents))

-- Whether or not it is accepted, a grant leaves the live consents of every other identity as they
-- are.
pub grant-select_other :
    (now : ℕ) (input : GrantConsentInput) (s : Store) (i : ℕ) (scope : ConsentScope)
    → i ≢ input.identity_id
    → select (is_live i scope) (grant now input s).1.consents ≡ select (is_live i scope) s.consents
grant-select_other now input s i scope other =
    elim (Bool-cases (input.document_version == consent_document_version)) [
      | inl e ↦
          rw (grant_current now input s ((==-iff _ _).0 e))
            (granted-select_other now input s i scope other)
      | inr e ↦ rw (grant_superseded now input s (λ same. ground arith)) refl
    ]

-- Withdrawal stamps every live consent, reports how many there were, and leaves none.
pub revoke-live :
    (now i : ℕ) (scope : ConsentScope) (s : Store)
    → ((revoke now i scope s).0 ≡ ok (length (select (is_live i scope) s.consents)))
      × (select (is_live i scope) (revoke now i scope s).1.consents ≡ [])
unfolding revoke
revoke-live now i scope s =
    (refl, select-update_where_none _ (stamp now) (stamp-not_live now i scope) s.consents)

live_consent-none :
    (i : ℕ) (scope : ConsentScope) (s : Store)
    → select (is_live i scope) s.consents ≡ []
    → live_consent i scope s ≡ none
unfolding live_consent
live_consent-none i scope s e = rw e

live_consent_one :
    (i : ℕ) (scope : ConsentScope) (s : Store) (c : BazosIdentityConsent)
    → select (is_live i scope) s.consents ≡ c ∷ []
    → live_consent i scope s ≡ some c
unfolding live_consent
live_consent_one i scope s c e = rw e

granted-consent_gate_iff :
    (c : Option BazosIdentityConsent) → ((status_of c).granted ≡ true) ↔ (consent_gate c ≡ [])
unfolding status_of consent_gate
granted-consent_gate_iff c = ground arith

-- The status says `granted` exactly when the consent gate of the publish policy is passed.
pub status-consent_gate_iff :
    (i : ℕ) (s : Store)
    → ((status i publish s).granted ≡ true) ↔ (consent_gate (live_consent i publish s) ≡ [])
unfolding status
status-consent_gate_iff i s = granted-consent_gate_iff (live_consent i publish s)

-- Right after a grant under the current terms the status is `granted`, whatever was there before.
pub grant-status :
    (now : ℕ) (input : GrantConsentInput) (s : Store)
    → input.document_version ≡ consent_document_version
    → (status input.identity_id (scope_or_publish input.scope) (grant now input s).1).granted ≡ true
unfolding status
grant-status now input s current =
    rw (live_consent_one _ _ (grant now input s).1 _ (grant-live now input s current).1, status_of)
      (ground arith)

-- After a withdrawal no publication of the identity is allowed, in whatever environment.
pub revoke-evaluate_refused :
    (now i : ℕ) (s : Store) (env : PolicyEnv) (input : PolicyCheckInput)
    → input.identity_id ≡ i
    → (evaluate env (revoke now i publish s).1 input).allowed ≡ false
revoke-evaluate_refused now i s env input same =
    elim (Bool-cases (evaluate env (revoke now i publish s).1 input).allowed) [
      | inl allowed ↦ absurd (
          subst IsCurrentConsent
            (ap (λ k. live_consent k publish (revoke now i publish s).1) same
              ∙ live_consent-none i publish (revoke now i publish s).1
                  (revoke-live now i publish s).1)
            ((evaluate-MayPublish_iff env (revoke now i publish s).1 input).0 allowed).2.consented)
      | inr denied ↦ denied
    ]

-- The record of who consented to what, without the stamp of withdrawal.
abbrev pub unstamped : BazosIdentityConsent → BazosIdentityConsent
unstamped c = record c { revoked_at = none }

granted-unstamped :
    (now : ℕ) (input : GrantConsentInput) (s : Store)
    → map unstamped (granted now input s).consents
      ≡ map unstamped s.consents ++ consent_row now input s.next_id ∷ []
unfolding granted
granted-unstamped now input s =
    let p = is_live input.identity_id (scope_or_publish input.scope) in
    map-append unstamped (update_where p (stamp now) s.consents)
      (consent_row now input s.next_id ∷ [])
    ∙ ap (λ l. l ++ consent_row now input s.next_id ∷ [])
        (map-update_where p unstamped (stamp now) (λ c. refl) s.consents)

-- The audit trail: no call edits or removes a consent but for the stamp of withdrawal, and a grant
-- adds at most one.
pub consents_kept :
    (now i : ℕ) (scope : ConsentScope) (input : GrantConsentInput) (s : Store)
    → (map unstamped (revoke now i scope s).1.consents ≡ map unstamped s.consents)
      × ((map unstamped (grant now input s).1.consents ≡ map unstamped s.consents)
          ⊎ (map unstamped (grant now input s).1.consents
              ≡ map unstamped s.consents ++ consent_row now input s.next_id ∷ []))
consents_kept now i scope input s = (
  revoked,
  elim (Bool-cases (input.document_version == consent_document_version)) [
    | inl e ↦
        rw (grant_current now input s ((==-iff _ _).0 e)) (inr (granted-unstamped now input s))
    | inr e ↦ rw (grant_superseded now input s (λ same. ground arith)) (inl refl)
  ],
)
  where
    revoked : map unstamped (revoke now i scope s).1.consents ≡ map unstamped s.consents
    revoked =
        unfold revoke in
        map-update_where (is_live i scope) unstamped (stamp now) (λ c. refl) s.consents
