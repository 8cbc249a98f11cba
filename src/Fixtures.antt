-- ===== src/Fixtures.antt =====
-- Concrete rows, stores and environments for the tests.
use bazos.Base.{ℕ, ◌*◌, none, some, [], ◌∷◌, Bool, true, false, pos, if◌then◌else◌, ltb}
use bazos.Gate.{publish, consent_document_version}
use bazos.Publisher.Options.{no_options}
use bazos.Store.{
  BazosPublishAttempt, PolicyCheck, empty_check, AttemptStatus, Store, BazosIdentity, BazosAd,
  BazosCategory, BazosIdentityConsent, verified, clear, SessionState, PublishStatus,
}
use bazos.Policy.Input.{PolicyEnv, PolicyCheckInput, Evidence, stock, ready, Readiness}

abbrev pub hour : ℕ
hour = 3600000

-- Three days after the epoch, at noon.
abbrev pub noon : ℕ
noon = 84 * hour

abbrev pub seller : BazosIdentity
seller = record {
  id = 1;
  account_id = some 9;
  user_id = some "eva";
  phone_number = "+420600000000";
  display_name = "Eva";
  contact_name = none;
  contact_phone = none;
  default_zip = none;
  default_location = some "Brno";
  session_state = SessionState.active;
  encrypted_session = none;
  status = verified;
  review_state = clear;
  verification_expires_at = some (noon * 2);
  active_ad_count = 3;
  next_publish_not_before = none;
  last_publish_attempt_at = none;
  notes = none;
}

abbrev pub bicycle : BazosAd
bicycle = record {
  id = 20;
  account_id = 9;
  identity_id = some 1;
  product_id = some 70;
  bazos_ad_id = none;
  bazos_edit_password = none;
  title = "Bicycle";
  description = none;
  price = 150000;
  category = some "sport";
  location = none;
  stock_quantity = 1;
  expires_at = none;
  is_active = true;
  publish_status = PublishStatus.draft;
  challenge_state = none;
  last_policy_check = none;
  last_published_at = none;
}

abbrev pub sport : BazosCategory
sport = record { id = 30; bazos_category = "sport"; is_active = true }

abbrev pub consent : BazosIdentityConsent
consent = record {
  id = 40;
  identity_id = 1;
  user_id = "eva";
  scope = publish;
  document_version = consent_document_version;
  granted_at = 5;
  revoked_at = none;
  ip = none;
  user_agent = none;
}

abbrev pub shop : Store
shop = record {
  accounts = [];
  identities = seller ∷ [];
  ads = bicycle ∷ [];
  categories = sport ∷ [];
  consents = consent ∷ [];
  cadences = [];
  attempts = [];
  sessions = [];
  orders = [];
  next_id = 100;
}

abbrev pub fine_readiness : Readiness
fine_readiness = record {
  contract_version = none;
  contract = none;
  policy_id = none;
  type_name = none;
  kind = none;
  resource_type = none;
  bundle_id = none;
  issues = some [];
  publishable = some true;
}

-- Half of the range, as a random source.
abbrev pub halves : ℕ → ℕ
halves n = if ltb 60 n then 60 else 0

abbrev pub open_day : PolicyEnv
open_day = record {
  now = noon;
  random = halves;
  warehouse_client = some (λ _. stock 1 (some (pos 2)));
  catalog_client = some (λ _. ready fine_readiness);
}

abbrev pub clean : Bool → Evidence
clean finding = record { checked_at = some noon; source = some "manual_review"; finding = finding }

abbrev pub request : PolicyCheckInput
request = record {
  identity_id = 1;
  bazos_category = "sport";
  product_id = some 70;
  ad_id = some 20;
  public_duplicate_check = some (clean false);
  content_policy = some (clean true);
}

abbrev pub unchecked : PolicyCheck
unchecked = record empty_check { submission_options = some no_options }

abbrev pub waiting_attempt : BazosPublishAttempt
waiting_attempt = record {
  id = 50;
  identity_id = 1;
  ad_id = some 20;
  product_id = some 70;
  status = AttemptStatus.queued;
  policy_result = unchecked;
  challenge_state = none;
  not_before = some noon;
  started_at = none;
  completed_at = none;
  error = none;
  created_at = 7;
}

abbrev pub waiting : Store
waiting = record shop { attempts = waiting_attempt ∷ [] }
