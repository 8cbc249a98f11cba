-- ===== src/Identity/Record.antt =====
-- shared/bazos/identity/bazos-identity.service.ts: looking an identity up, its contact data, its
-- challenges, and the counters and slots of publishing. `now` is the time of the call.
use bazos.Base.{
  ℕ, ◌+◌, ◌-◌, Option, none, some, Bool, ◌&&◌, if◌then◌else◌, String, ◌==◌, nat_eq, string_eq,
  option_eq,
}
use bazos.Store.{
  BazosIdentity, BazosIdentityCategoryCadence, ReviewState, clear, session_expired, SessionState,
  review_state_eq, M, return, ◌>>=◌, throw, or_throw, not_found, bad_request, bazos_identity,
  bazos_identity_category_cadence, find_where, find_unique, update, create,
}
use bazos.Identity.Input.{UpdateBazosIdentityDto, MarkChallengeDto, DateInput, absent, invalid, at}
use bazos.Policy.Gates.{is_cadence_of}

abbrev pub is_identity_of : ℕ → String → BazosIdentity → Bool
is_identity_of id user_id i = i.id == id && i.user_id == some user_id

abbrev pub find_by_id : ℕ → String → M BazosIdentity
find_by_id id user_id = do
  found ← find_where bazos_identity (is_identity_of id user_id)
  or_throw found not_found

abbrev pub to_date : DateInput → M (Option ℕ)
to_date absent = return none
to_date invalid = throw bad_request
to_date (at t) = return (some t)

-- A value that is left out (`undefined`) leaves the column as it is.
abbrev pub keep : Option String → Option String → Option String
keep none old = old
keep (some new) old = some new

abbrev keep_text : Option String → String → String
keep_text none old = old
keep_text (some new) old = new

unfoldable pub update_identity : ℕ → String → UpdateBazosIdentityDto → M BazosIdentity
update_identity id user_id dto = do
  _ ← find_by_id id user_id
  update bazos_identity id λ i. record i {
    display_name = keep_text dto.display_name i.display_name;
    contact_name = keep dto.contact_name i.contact_name;
    contact_phone = keep dto.contact_phone i.contact_phone;
    default_zip = keep dto.default_zip i.default_zip;
    default_location = keep dto.default_location i.default_location;
    notes = keep dto.notes i.notes;
  }

abbrev pub assert_challenge_state : Option ReviewState → M ReviewState
assert_challenge_state none = throw bad_request
assert_challenge_state (some r) = if r == clear then throw bad_request else return r

abbrev pub session_after : ReviewState → SessionState
session_after r = if r == session_expired then SessionState.expired else SessionState.challenge

abbrev pub challenged : ReviewState → Option String → BazosIdentity → BazosIdentity
challenged r notes i = record i {
  review_state = r;
  session_state = session_after r;
  notes = keep notes i.notes;
}

unfoldable pub apply_identity_challenge_state : ℕ → ReviewState → Option String → M BazosIdentity
apply_identity_challenge_state id r notes = update bazos_identity id (challenged r notes)

unfoldable pub mark_challenge : ℕ → String → MarkChallengeDto → M BazosIdentity
unfolding apply_identity_challenge_state
mark_challenge id user_id dto = do
  _ ← find_by_id id user_id
  r ← assert_challenge_state dto.challenge_state
  apply_identity_challenge_state id r dto.notes

abbrev pub fewer_ads : Option BazosIdentity → ℕ → M (Unit {0})
fewer_ads none id = return tt
fewer_ads (some i) id = do
  _ ← update bazos_identity id λ j. record j { active_ad_count = i.active_ad_count - 1 }
  return tt

-- `Math.max(0, count - 1)` is the truncated difference.
unfoldable pub decrement_active_ad_count : ℕ → M (Unit {0})
decrement_active_ad_count id = do found ← find_unique bazos_identity id; fewer_ads found id

unfoldable pub increment_active_ad_count : ℕ → M (Unit {0})
increment_active_ad_count id = do
  _ ← update bazos_identity id λ i. record i { active_ad_count = i.active_ad_count + 1 }
  return tt

unfoldable pub reserve_publish_slot : ℕ → ℕ → ℕ → M (Unit {0})
reserve_publish_slot now id not_before = do
  _ ← update bazos_identity id λ i. record i {
    next_publish_not_before = some not_before;
    last_publish_attempt_at = some now;
  }
  return tt

abbrev pub upsert : ℕ → ℕ → String → Option BazosIdentityCategoryCadence → M (Unit {0})
upsert now identity_id category none = do
  _ ← create bazos_identity_category_cadence λ id. record {
    id = id;
    identity_id = identity_id;
    bazos_category = category;
    last_published_at = now;
  }
  return tt
upsert now identity_id category (some c) = do
  _ ← update bazos_identity_category_cadence c.id λ c. record c { last_published_at = now }
  return tt

unfoldable pub record_category_publish : ℕ → ℕ → String → M (Unit {0})
record_category_publish now identity_id category = do
  found ← find_where bazos_identity_category_cadence (is_cadence_of identity_id category)
  upsert now identity_id category found
