-- ===== src/Store/Rows.antt =====
-- The rows of the tables.
use bazos.Base.{ℕ, Option, List, Bool, String}
use bazos.Json.{Fields}
use bazos.Gate.{ConsentScope}
use bazos.Store.Checks.{PolicyCheck}
use bazos.Store.Status.{
  IdentityStatus, ReviewState, SessionState, VerificationSessionState, AttemptStatus, PublishStatus,
}

-- The email of an account is a list of code points.
pub record BazosAccount : Type 0 where
  pub id : ℕ
  pub user_id : Option String
  pub email : List ℕ
  pub is_active : Bool
  pub created_at : ℕ

pub record BazosIdentity : Type 0 where
  pub id : ℕ
  pub account_id : Option ℕ
  pub user_id : Option String
  pub phone_number : String
  pub display_name : String
  pub contact_name : Option String
  pub contact_phone : Option String
  pub default_zip : Option String
  pub default_location : Option String
  pub session_state : SessionState
  pub encrypted_session : Option Fields
  pub status : IdentityStatus
  pub review_state : ReviewState
  pub verification_expires_at : Option ℕ
  pub active_ad_count : ℕ
  pub next_publish_not_before : Option ℕ
  pub last_publish_attempt_at : Option ℕ
  pub notes : Option String

-- `price` is in hundredths.
pub record BazosAd : Type 0 where
  pub id : ℕ
  pub account_id : ℕ
  pub identity_id : Option ℕ
  pub product_id : Option ℕ
  pub bazos_ad_id : Option String
  pub bazos_edit_password : Option String
  pub title : String
  pub description : Option String
  pub price : ℕ
  pub category : Option String
  pub location : Option String
  pub stock_quantity : ℕ
  pub expires_at : Option ℕ
  pub is_active : Bool
  pub publish_status : PublishStatus
  pub challenge_state : Option ReviewState
  pub last_policy_check : Option PolicyCheck
  pub last_published_at : Option ℕ

pub record BazosCategory : Type 0 where
  pub id : ℕ
  pub bazos_category : String
  pub is_active : Bool

pub record BazosIdentityConsent : Type 0 where
  pub id : ℕ
  pub identity_id : ℕ
  pub user_id : String
  pub scope : ConsentScope
  pub document_version : String
  pub granted_at : ℕ
  pub revoked_at : Option ℕ
  pub ip : Option String
  pub user_agent : Option String

pub record BazosIdentityCategoryCadence : Type 0 where
  pub id : ℕ
  pub identity_id : ℕ
  pub bazos_category : String
  pub last_published_at : ℕ

pub record BazosPublishAttempt : Type 0 where
  pub id : ℕ
  pub identity_id : ℕ
  pub ad_id : Option ℕ
  pub product_id : Option ℕ
  pub status : AttemptStatus
  pub policy_result : PolicyCheck
  pub challenge_state : Option ReviewState
  pub not_before : Option ℕ
  pub started_at : Option ℕ
  pub completed_at : Option ℕ
  pub error : Option String
  pub created_at : ℕ

pub record BazosVerificationSession : Type 0 where
  pub id : ℕ
  pub identity_id : ℕ
  pub state : VerificationSessionState
  pub challenge_type : Option ReviewState
  pub verification_url : Option String
  pub operator_user_id : Option String
  pub human_confirmed : Bool
  pub expires_at : Option ℕ
  pub completed_at : Option ℕ
  pub notes : Option String

-- `status`, `payment_status` and the identifiers that come from outside are lists of code points. The
-- customer, the currency and the snapshots of the items are left out.
pub record BazosOrder : Type 0 where
  pub id : ℕ
  pub account_id : ℕ
  pub bazos_order_id : Option (List ℕ)
  pub order_id : Option (List ℕ)
  pub forwarded : Bool
  pub status : List ℕ
  pub payment_status : List ℕ
  pub created_at : ℕ

-- `next_id` stands for the supply of fresh identifiers behind `@default(uuid())`.
pub record Store : Type 0 where
  pub accounts : List BazosAccount
  pub identities : List BazosIdentity
  pub ads : List BazosAd
  pub categories : List BazosCategory
  pub consents : List BazosIdentityConsent
  pub cadences : List BazosIdentityCategoryCadence
  pub attempts : List BazosPublishAttempt
  pub sessions : List BazosVerificationSession
  pub orders : List BazosOrder
  pub next_id : ℕ
