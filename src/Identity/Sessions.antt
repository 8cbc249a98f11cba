-- ===== src/Identity/Sessions.antt =====
-- shared/bazos/identity/bazos-identity.service.ts: the sessions in which a human verifies an
-- identity. `now` is the time of the call.
use bazos.Base.{
  ℕ, ◌+◌, ◌*◌, Option, none, some, Bool, true, false, not, ◌&&◌, if◌then◌else◌, String, ◌==◌,
  nat_eq, leb, or_else,
}
use bazos.Json.{Fields}
use bazos.Store.{
  BazosIdentity, BazosVerificationSession, clear, verification_required, session_expired,
  SessionState, VerificationSessionState, awaiting_human, completed, challenge_detected,
  IdentityStatus, verified, verification_session_state_eq, M, return, ◌>>=◌, ◌>>◌, throw, throw_if,
  or_throw, not_found, bad_request, bazos_identity, bazos_verification_session, find_where,
  find_unique, update, create,
}
use bazos.Identity.Envelope.{validate_encrypted_session_envelope}
use bazos.Identity.Input.{
  MarkChallengeDto, StartVerificationSessionDto, CompleteManualVerificationSessionDto,
  CompleteVerificationSessionDto,
}
use bazos.Identity.Record.{
  find_by_id, to_date, keep, assert_challenge_state, apply_identity_challenge_state,
}

abbrev default_verification_session_minutes : ℕ
default_verification_session_minutes = 30

abbrev default_bazos_verification_url : String
default_bazos_verification_url = "https://www.bazos.cz/"

abbrev or_in_half_an_hour : ℕ → Option ℕ → ℕ
or_in_half_an_hour now none = now + default_verification_session_minutes * 60000
or_in_half_an_hour now (some t) = t

abbrev pub unready : BazosIdentity → BazosIdentity
unready i = record i {
  status = IdentityStatus.draft;
  review_state = verification_required;
  session_state = SessionState.missing;
}

unfoldable pub start_verification_session :
    ℕ → ℕ → String → StartVerificationSessionDto → M BazosVerificationSession
start_verification_session now id user_id dto = do
  _ ← find_by_id id user_id
  date ← to_date dto.expires_at
  session ← create bazos_verification_session λ k. record {
    id = k;
    identity_id = id;
    state = awaiting_human;
    challenge_type = none;
    verification_url = or_else dto.verification_url (some default_bazos_verification_url);
    operator_user_id = some user_id;
    human_confirmed = false;
    expires_at = some (or_in_half_an_hour now date);
    completed_at = none;
    notes = or_else dto.notes none;
  }
  _ ← update bazos_identity id unready
  return session

abbrev pub is_session_of : ℕ → ℕ → BazosVerificationSession → Bool
is_session_of id session_id v = v.id == session_id && v.identity_id == id

abbrev pub get_awaiting_verification_session : ℕ → ℕ → M BazosVerificationSession
get_awaiting_verification_session id session_id = do
  found ← find_where bazos_verification_session (is_session_of id session_id)
  session ← or_throw found not_found
  throw_if (not (session.state == awaiting_human)) bad_request
  return session

abbrev pub expire : Option String → BazosVerificationSession → BazosVerificationSession
expire notes v = record v {
  state = VerificationSessionState.expired;
  challenge_type = some session_expired;
  notes = or_else notes v.notes;
}

abbrev pub expire_identity : Option String → BazosIdentity → BazosIdentity
expire_identity notes i = record i {
  review_state = session_expired;
  session_state = SessionState.expired;
  notes = keep notes i.notes;
}

unfoldable pub expire_verification_session :
    ℕ → ℕ → String → Option String → M BazosVerificationSession
expire_verification_session id session_id user_id notes = do
  _ ← find_by_id id user_id
  found ← find_where bazos_verification_session (is_session_of id session_id)
  session ← or_throw found not_found
  throw_if (session.state == completed) bad_request
  updated ← update bazos_verification_session session_id (expire notes)
  _ ← update bazos_identity id (expire_identity notes)
  return updated

abbrev pub is_over : ℕ → Option ℕ → Bool
is_over now none = false
is_over now (some t) = leb t now

unfoldable pub expire_and_throw : ℕ → ℕ → String → String → M (Unit {0})
expire_and_throw id session_id user_id notes = do
  _ ← expire_verification_session id session_id user_id (some notes)
  throw bad_request

-- A session whose time is over is expired before the call fails.
unfoldable pub check_time : ℕ → ℕ → ℕ → String → String → BazosVerificationSession → M (Unit {0})
check_time now id session_id user_id notes session =
    if is_over now session.expires_at
    then expire_and_throw id session_id user_id notes
    else return tt

abbrev pub complete : ℕ → Option String → BazosVerificationSession → BazosVerificationSession
complete now notes v = record v {
  state = completed;
  human_confirmed = true;
  completed_at = some now;
  notes = or_else notes v.notes;
}

abbrev pub verify : Option ℕ → Option String → BazosIdentity → BazosIdentity
verify expires_at notes i = record i {
  status = verified;
  review_state = clear;
  session_state = SessionState.active;
  verification_expires_at = expires_at;
  notes = keep notes i.notes;
}

abbrev pub verify_with : Fields → Option ℕ → Option String → BazosIdentity → BazosIdentity
verify_with envelope expires_at notes i = record (verify expires_at notes i) {
  encrypted_session = some envelope;
}

unfoldable pub complete_verification_session :
    ℕ → ℕ → ℕ → String → CompleteVerificationSessionDto → M BazosVerificationSession
complete_verification_session now id session_id user_id dto = do
  _ ← find_by_id id user_id
  session ← get_awaiting_verification_session id session_id
  check_time now id session_id user_id "Verification session expired before completion" session
  throw_if (not dto.human_confirmed) bad_request
  envelope ← or_throw (validate_encrypted_session_envelope dto.encrypted_session) bad_request
  date ← to_date dto.verification_expires_at
  updated ← update bazos_verification_session session_id (complete now dto.notes)
  _ ← update bazos_identity id (verify_with envelope date dto.notes)
  return updated

abbrev pub account_of : Option BazosIdentity → Option ℕ
account_of none = none
account_of (some i) = i.account_id

-- `ensureAccountForIdentity`
abbrev pub ensure_account_for_identity : ℕ → M (Option ℕ)
ensure_account_for_identity id = do found ← find_unique bazos_identity id; return (account_of found)

unfoldable pub complete_manual_verification_session :
    ℕ → ℕ → ℕ → String → CompleteManualVerificationSessionDto → M BazosVerificationSession
complete_manual_verification_session now id session_id user_id dto = do
  _ ← find_by_id id user_id
  session ← get_awaiting_verification_session id session_id
  check_time now id session_id user_id "Verification session expired before manual completion"
      session
  throw_if (not dto.human_confirmed) bad_request
  date ← to_date dto.verification_expires_at
  account_id ← ensure_account_for_identity id
  updated ← update bazos_verification_session session_id (complete now dto.notes)
  _ ← update bazos_identity id λ i. record (verify date dto.notes i) { account_id = account_id }
  return updated

unfoldable pub record_verification_challenge :
    ℕ → ℕ → String → MarkChallengeDto → M BazosVerificationSession
unfolding apply_identity_challenge_state
record_verification_challenge id session_id user_id dto = do
  _ ← find_by_id id user_id
  _ ← get_awaiting_verification_session id session_id
  r ← assert_challenge_state dto.challenge_state
  updated ← update bazos_verification_session session_id λ v. record v {
    state = challenge_detected;
    challenge_type = some r;
    notes = or_else dto.notes none;
  }
  _ ← apply_identity_challenge_state id r dto.notes
  return updated

unfoldable pub mark_verified : ℕ → ℕ → String → CompleteVerificationSessionDto → M BazosIdentity
mark_verified now id user_id dto = do
  _ ← find_by_id id user_id
  throw_if (not dto.human_confirmed) bad_request
  envelope ← or_throw (validate_encrypted_session_envelope dto.encrypted_session) bad_request
  date ← to_date dto.verification_expires_at
  _ ← create bazos_verification_session λ k. record {
    id = k;
    identity_id = id;
    state = completed;
    challenge_type = none;
    verification_url = none;
    operator_user_id = some user_id;
    human_confirmed = true;
    expires_at = none;
    completed_at = some now;
    notes = or_else dto.notes none;
  }
  update bazos_identity id (verify_with envelope date dto.notes)
