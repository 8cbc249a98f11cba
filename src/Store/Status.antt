-- ===== src/Store/Status.antt =====
-- The values of the status columns: shared/bazos/identity/bazos-identity.types.ts, the statuses of
-- shared/bazos/publisher/bazos-publisher-queue.service.ts, and those of an ad.
use bazos.Base.{Eq}

pub data IdentityStatus : Type 0 where
  draft verified suspended banned : IdentityStatus

pub data ReviewState : Type 0 where
  clear verification_required bank_verification_required captcha_or_human_check_required :
      ReviewState
  session_expired blocked_by_bazos duplicate_rejected content_policy_rejected : ReviewState
  category_review_required : ReviewState

pub data SessionState : Type 0 where
  missing active expired challenge : SessionState

pub data VerificationSessionState : Type 0 where
  awaiting_human completed challenge_detected expired cancelled : VerificationSessionState

pub data AttemptStatus : Type 0 where
  policy_checked queued submitting submitted : AttemptStatus
  challenge_required failed policy_blocked : AttemptStatus

pub data PublishStatus : Type 0 where
  draft queued publishing published : PublishStatus
  active failed challenge blocked_policy : PublishStatus
  deleted : PublishStatus

unfoldable pub IdentityStatus-discrete : Discrete IdentityStatus
IdentityStatus-discrete = hlevel

unfoldable pub ReviewState-discrete : Discrete ReviewState
ReviewState-discrete = hlevel

unfoldable pub SessionState-discrete : Discrete SessionState
SessionState-discrete = hlevel

unfoldable pub VerificationSessionState-discrete : Discrete VerificationSessionState
VerificationSessionState-discrete = hlevel

unfoldable pub AttemptStatus-discrete : Discrete AttemptStatus
AttemptStatus-discrete = hlevel

unfoldable pub PublishStatus-discrete : Discrete PublishStatus
PublishStatus-discrete = hlevel

instance abbrev pub identity_status_eq : Eq IdentityStatus
identity_status_eq = record { decides = IdentityStatus-discrete }

instance abbrev pub review_state_eq : Eq ReviewState
review_state_eq = record { decides = ReviewState-discrete }

instance abbrev pub session_state_eq : Eq SessionState
session_state_eq = record { decides = SessionState-discrete }

instance abbrev pub verification_session_state_eq : Eq VerificationSessionState
verification_session_state_eq = record { decides = VerificationSessionState-discrete }

instance abbrev pub attempt_status_eq : Eq AttemptStatus
attempt_status_eq = record { decides = AttemptStatus-discrete }

instance abbrev pub publish_status_eq : Eq PublishStatus
publish_status_eq = record { decides = PublishStatus-discrete }
