-- ===== src/Policy/Input.antt =====
-- The constants, the input and the environment of a policy evaluation:
-- shared/bazos/policy/publish-policy.service.ts and the limits of
-- shared/bazos/identity/bazos-identity.types.ts.
use bazos.Base.{ℕ, ◌*◌, Option, none, some, List, [], ◌∷◌, Bool, String, ℤ}
use bazos.Gate.{PolicyGate, PolicyGateFailure}

abbrev pub max_active_ads : ℕ
max_active_ads = 50

abbrev pub pacing_min_seconds : ℕ
pacing_min_seconds = 60

abbrev pub pacing_max_seconds : ℕ
pacing_max_seconds = 180

abbrev pub category_cooldown_hours : ℕ
category_cooldown_hours = 24

abbrev pub public_duplicate_evidence_ttl_ms : ℕ
public_duplicate_evidence_ttl_ms = 60 * 60 * 1000

abbrev pub content_policy_evidence_ttl_ms : ℕ
content_policy_evidence_ttl_ms = 60 * 60 * 1000

-- What the two requests to Warehouse bring: the number of stock rows (0 also where the reply is no
-- array), and the total as a number, `none` where it is not finite.
pub data WarehouseReply : Type 0 where
  stock : ℕ → Option ℤ → WarehouseReply
  warehouse_error : WarehouseReply

pub record ReadinessIssue : Type 0 where
  pub severity : Option String
  pub code : Option String

-- `issues` is `none` where it is no array, `publishable` where it is no Boolean.
pub record Readiness : Type 0 where
  pub contract_version : Option String
  pub contract : Option String
  pub policy_id : Option String
  pub type_name : Option String
  pub kind : Option String
  pub resource_type : Option String
  pub bundle_id : Option String
  pub issues : Option (List ReadinessIssue)
  pub publishable : Option Bool

pub data CatalogReply : Type 0 where
  ready : Readiness → CatalogReply
  catalog_error : CatalogReply

-- `random n` is `Math.floor(Math.random() * n)`.
pub record PolicyEnv : Type 0 where
  pub now : ℕ
  pub random : ℕ → ℕ
  pub warehouse_client : Option (ℕ → WarehouseReply)
  pub catalog_client : Option (ℕ → CatalogReply)

-- `checked_at` is `none` for an invalid date; `finding` is `likelyDuplicate`, or `passed`.
pub record Evidence : Type 0 where
  pub checked_at : Option ℕ
  pub source : Option String
  pub finding : Bool

pub record PolicyCheckInput : Type 0 where
  pub identity_id : ℕ
  pub bazos_category : String
  pub product_id : Option ℕ
  pub ad_id : Option ℕ
  pub public_duplicate_check : Option Evidence
  pub content_policy : Option Evidence

abbrev pub fails : PolicyGate → List PolicyGateFailure
fails g = record { gate = g; blocked_until = none } ∷ []

abbrev pub fails_until : PolicyGate → ℕ → List PolicyGateFailure
fails_until g t = record { gate = g; blocked_until = some t } ∷ []
