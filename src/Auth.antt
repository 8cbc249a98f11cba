-- ===== src/Auth.antt =====
-- shared/auth/jwt-auth.guard.ts and shared/auth/auth.service.ts: who a request is from. The replies
-- of auth-microservice are an argument: the outcome of each call, by its number.
pub mod Authenticated
mod Tests
use bazos.Base.{
  ℕ, Option, none, some, List, [], ◌∷◌, ◌++◌, Bool, true, false, not, ◌&&◌, ◌==◌, nat_eq, codes_eq,
  option_eq, bool_eq, if◌then◌else◌, String, codes, trim, split,
}
use bazos.Json.{Json, null, bool, get, path, is_truthy, first_truthy, shown}
use bazos.Retry.{Attempt, Result, returned, thrown, retry}

pub record ValidateTokenResponse : Type 0 where
  pub valid : Bool
  pub user : Option Json

-- The fields of `request.user` that the guard sets.
pub record AuthUser : Type 0 where
  pub id : List ℕ
  pub email : List ℕ
  pub first_name : Option Json
  pub last_name : Option Json
  pub phone : Option Json
  pub is_active : Bool
  pub is_verified : Bool

-- An exception of a call, with the status of the reply where there was one.
pub record CallError : Type 0 where
  pub status : Option ℕ

abbrev pub Calls : Type 0 → Type 0
Calls A = ℕ → Attempt A CallError

abbrev response_or_invalid : Result ValidateTokenResponse CallError → ValidateTokenResponse
response_or_invalid (returned r) = r
response_or_invalid (thrown e) = record { valid = false; user = none }

-- Two tries, half a second apart; a failure counts as an invalid token.
unfoldable pub validate_token : Calls ValidateTokenResponse → ValidateTokenResponse
unfolding retry
validate_token calls = response_or_invalid (retry calls 2 500).result

abbrev given_text : Option Json → List ℕ
given_text none = []
given_text (some null) = []
given_text (some v) = trim (shown v)

abbrev or_next : List ℕ → Option (List ℕ) → Option (List ℕ)
or_next [] rest = rest
or_next (c ∷ cs) rest = some (c ∷ cs)

-- The first value that is given and whose text has more than white space, as that text.
unfoldable pub first_string : List (Option Json) → Option (List ℕ)
unfolding trim shown
first_string [] = none
first_string (v ∷ vs) = let rest = first_string vs in or_next (given_text v) rest

abbrev user_path : Json → List String → Option Json
user_path user keys = path (some user) keys

abbrev pub id_values : Json → List (Option Json)
id_values user =
    user_path user ("id" ∷ [])
    ∷ user_path user ("sub" ∷ [])
    ∷ user_path user ("userId" ∷ [])
    ∷ user_path user ("user" ∷ "id" ∷ [])
    ∷ user_path user ("user" ∷ "sub" ∷ [])
    ∷ user_path user ("user" ∷ "userId" ∷ [])
    ∷ []

unfoldable pub user_id_of : Json → Option (List ℕ)
unfolding first_string path
user_id_of user = first_string (id_values user)

abbrev or_unknown : List ℕ → Option (List ℕ) → List ℕ
or_unknown id none = codes "user-" ++ (id ++ codes "@unknown")
or_unknown id (some email) = email

-- `user.flag !== false && user.user?.flag !== false`
unfoldable pub flag_of : Json → String → Bool
unfolding path
flag_of user flag =
    not (is_false (user_path user (flag ∷ [])))
    && not (is_false (user_path user ("user" ∷ flag ∷ [])))
  where
    is_false : Option Json → Bool
    is_false (some (bool b)) = not b
    is_false v = false

abbrev with_id : Json → Option (List ℕ) → Option AuthUser
with_id user none = none
with_id user (some id) = some (record {
  id = id;
  email =
      or_unknown id (
        first_string (user_path user ("email" ∷ []) ∷ user_path user ("user" ∷ "email" ∷ []) ∷ []));
  first_name = first_truthy (some user) (
      ("firstName" ∷ [])
      ∷ ("first_name" ∷ [])
      ∷ ("user" ∷ "firstName" ∷ [])
      ∷ ("user" ∷ "first_name" ∷ [])
      ∷ []);
  last_name = first_truthy (some user) (
      ("lastName" ∷ [])
      ∷ ("last_name" ∷ [])
      ∷ ("user" ∷ "lastName" ∷ [])
      ∷ ("user" ∷ "last_name" ∷ [])
      ∷ []);
  phone = first_truthy (some user) (("phone" ∷ []) ∷ ("user" ∷ "phone" ∷ []) ∷ []);
  is_active = flag_of user "isActive";
  is_verified = flag_of user "isVerified";
})

-- `none` is the exception for a payload without an identifier.
unfoldable pub normalize_user : Json → Option AuthUser
unfolding user_id_of first_string first_truthy flag_of
normalize_user user = with_id user (user_id_of user)

abbrev bearer : List (List ℕ) → Option (List ℕ)
bearer (kind ∷ token ∷ rest) = if kind == codes "Bearer" then some token else none
bearer words = none

unfoldable pub extract_token_from_header : Option (List ℕ) → Option (List ℕ)
unfolding split
extract_token_from_header none = none
extract_token_from_header (some header) = bearer (split b' ' header)

-- The request goes on with its user, or is answered with the status 401, which is the status of
-- every exception of the guard.
pub data GuardResult : Type 0 where
  accepted : AuthUser → GuardResult
  unauthorized : GuardResult

abbrev pub accept : Option AuthUser → GuardResult
accept none = unauthorized
accept (some user) = accepted user

abbrev pub accept_json : Option Json → GuardResult
accept_json none = unauthorized
accept_json (some user) =
    if is_truthy (some user) then accept (normalize_user user) else unauthorized

abbrev pub check_validation : ValidateTokenResponse → GuardResult
check_validation r = if r.valid then accept_json r.user else unauthorized

abbrev pub check_token : (List ℕ → Calls ValidateTokenResponse) → Option (List ℕ) → GuardResult
check_token calls none = unauthorized
check_token calls (some []) = unauthorized
check_token calls (some (c ∷ cs)) = check_validation (validate_token (calls (c ∷ cs)))

unfoldable pub can_activate : (List ℕ → Calls ValidateTokenResponse) → Option (List ℕ) → GuardResult
unfolding extract_token_from_header validate_token is_truthy normalize_user
can_activate calls authorization = check_token calls (extract_token_from_header authorization)

-- `register`, `login` and `refreshToken`: a reply, an exception that is passed on, or the refusal of
-- the credentials.
pub data AuthResult (A : Type 0) : Type 0 where
  response : A → AuthResult A
  failed : Option CallError → AuthResult A
  refused_credentials : AuthResult A

abbrev passed_on : {A : Type 0} → Result A CallError → AuthResult A
passed_on (returned r) = response r
passed_on (thrown e) = failed e

unfoldable pub register : {A : Type 0} → Calls A → AuthResult A
unfolding retry
register calls = passed_on (retry calls 3 1000).result

abbrev is_unauthorized : Option CallError → Bool
is_unauthorized none = false
is_unauthorized (some e) = e.status == some 401

abbrev login_result : {A : Type 0} → Result A CallError → AuthResult A
login_result (returned r) = response r
login_result (thrown e) = if is_unauthorized e then refused_credentials else failed e

unfoldable pub login : {A : Type 0} → Calls A → AuthResult A
unfolding retry
login calls = login_result (retry calls 3 1000).result

abbrev refresh_result : {A : Type 0} → Result A CallError → AuthResult A
refresh_result (returned r) = response r
refresh_result (thrown e) = refused_credentials

-- The number of tries and the first wait are configured.
unfoldable pub refresh_token : {A : Type 0} → Calls A → ℕ → ℕ → AuthResult A
unfolding retry
refresh_token calls max_retries retry_delay =
    refresh_result (retry calls max_retries retry_delay).result
