-- ===== src/Auth/Tests.antt =====
-- The theorem on the guard, at a token that is validated by the second call.
use bazos.Base.{
  ℕ, ◌≡◌, refl, some, none, List, [], true, if◌then◌else◌, ltb, codes, split, trim, trim_start,
  is_space, ℕ_discrete, Codes-discrete, String-discrete,
}
use bazos.Json.{Json, text, obj, field, end, is_truthy, member, get, path, shown}
use bazos.Retry.{resolved, rejected, retry, retry_from}
use bazos.Auth.{
  ValidateTokenResponse, AuthUser, Calls, GuardResult, accepted, unauthorized, can_activate,
  validate_token, extract_token_from_header, first_string, user_id_of, normalize_user,
}
use bazos.Auth.Authenticated.{IsAuthenticated, can_activate-IsAuthenticated}

abbrev eva : Json
eva = obj (field "sub" (text "eva") end)

abbrev second_time : List ℕ → Calls ValidateTokenResponse
second_time token k =
    if ltb k 1
    then rejected (record { status = none })
    else resolved (record { valid = true; user = some eva })

abbrev nobody : AuthUser
nobody = record {
  id = [];
  email = [];
  first_name = none;
  last_name = none;
  phone = none;
  is_active = true;
  is_verified = true;
}

abbrev user_of : GuardResult → AuthUser
user_of (accepted u) = u
user_of unauthorized = nobody

abbrev request_user : AuthUser
request_user = user_of (can_activate second_time (some (codes "Bearer t")))

let_through : can_activate second_time (some (codes "Bearer t")) ≡ accepted request_user
unfolding can_activate validate_token extract_token_from_header split normalize_user user_id_of
    first_string path get member trim trim_start is_space shown is_truthy retry retry_from
    ℕ_discrete Codes-discrete String-discrete
let_through = refl

can_activate-IsAuthenticated_example :
    IsAuthenticated second_time (some (codes "Bearer t")) request_user
can_activate-IsAuthenticated_example =
    can_activate-IsAuthenticated second_time (some (codes "Bearer t")) request_user let_through
