-- ===== src/Identity/Input.antt =====
-- What a request brings: shared/bazos/identity/bazos-identity.dto.ts.
use bazos.Base.{ℕ, Option, Bool, String}
use bazos.Store.{ReviewState}
use bazos.Json.{Json}

-- A date that is left out, that does not parse, or that stands for a time.
pub data DateInput : Type 0 where
  absent : DateInput
  invalid : DateInput
  at : ℕ → DateInput

pub record UpdateBazosIdentityDto : Type 0 where
  pub display_name : Option String
  pub contact_name : Option String
  pub contact_phone : Option String
  pub default_zip : Option String
  pub default_location : Option String
  pub notes : Option String

-- `none` is a text that names no review state.
pub record MarkChallengeDto : Type 0 where
  pub challenge_state : Option ReviewState
  pub notes : Option String

pub record StartVerificationSessionDto : Type 0 where
  pub verification_url : Option String
  pub expires_at : DateInput
  pub notes : Option String

pub record CompleteManualVerificationSessionDto : Type 0 where
  pub human_confirmed : Bool
  pub verification_expires_at : DateInput
  pub notes : Option String

-- Also `MarkVerifiedDto`, which extends it.
pub record CompleteVerificationSessionDto : Type 0 where
  pub human_confirmed : Bool
  pub encrypted_session : Json
  pub verification_expires_at : DateInput
  pub notes : Option String
