-- ===== src/Identity/Accounts.antt =====
-- shared/bazos/identity/bazos-identity.service.ts: creating an identity, and the account that it
-- is linked to. `now` is the time of the call.
use bazos.Base.{
  ℕ, Option, none, some, List, [], ◌∷◌, Bool, true, false, not, ◌&&◌, ◌||◌, if◌then◌else◌, String,
  ◌==◌, nat_eq, string_eq, option_eq, codes_eq, ltb, any, select, truthy, or_else, trim, codes, map,
  lower_code,
}
use bazos.Store.{
  Store, BazosAccount, BazosIdentity, IdentityStatus, clear, SessionState, M, return, ◌>>=◌, ◌>>◌,
  throw_if, or_throw, conflict, bad_request, ok, bazos_account, bazos_identity, find_where,
  find_unique, update, create,
}

pub record CreateBazosIdentityDto : Type 0 where
  pub phone_number : String
  pub display_name : String
  pub contact_name : Option String
  pub contact_phone : Option String
  pub default_zip : Option String
  pub default_location : Option String
  pub account_id : Option ℕ
  pub bazos_email : Option String
  pub notes : Option String

-- The linked identities of an account.
abbrev pub is_linked : BazosAccount → BazosIdentity → Bool
is_linked a i = i.account_id == some a.id

-- `orderBy: { createdAt: 'asc' }` and the first row.
older : BazosAccount → Option BazosAccount → Option BazosAccount
older a none = some a
older a (some b) = if ltb b.created_at a.created_at then some b else some a

unfoldable pub oldest : List BazosAccount → Option BazosAccount
unfolding older
oldest [] = none
oldest (a ∷ rest) = older a (oldest rest)

unfoldable pub is_account_for : List ℕ → String → List BazosIdentity → BazosAccount → Bool
unfolding any
is_account_for email user_id identities a =
    a.email == email
    && (a.user_id == some user_id
        || (a.user_id == none && any (λ i. is_linked a i && i.user_id == some user_id) identities))

unfoldable pub find_account : List ℕ → String → M (Option BazosAccount)
find_account email user_id s =
    (ok (oldest (select (is_account_for email user_id s.identities) s.accounts)), s)

-- `String(bazosEmail || '').trim().toLowerCase()`
unfoldable pub normalized_email : Option String → List ℕ
normalized_email none = []
normalized_email (some email) = map lower_code (trim (codes email))

unfoldable pub claim_account : String → BazosAccount → M ℕ
claim_account user_id a =
    if truthy a.user_id
    then return a.id
    else (do _ ← update bazos_account a.id λ b. record b { user_id = some user_id }; return a.id)

abbrev pub claim_or_create : ℕ → String → List ℕ → Option BazosAccount → M ℕ
claim_or_create now user_id email (some a) = claim_account user_id a
claim_or_create now user_id email none = do
  account ← create bazos_account λ id. record {
    id = id;
    user_id = some user_id;
    email = email;
    is_active = true;
    created_at = now;
  }
  return account.id

abbrev pub with_email : ℕ → String → List ℕ → M (Option ℕ)
with_email now user_id [] = return none
with_email now user_id (c ∷ cs) = do
  existing ← find_account (c ∷ cs) user_id
  id ← claim_or_create now user_id (c ∷ cs) existing
  return (some id)

unfoldable pub ensure_account_for_user : ℕ → String → Option String → M (Option ℕ)
ensure_account_for_user now user_id email = with_email now user_id (normalized_email email)

-- `value && value !== userId`
abbrev pub is_foreign : String → Option String → Bool
is_foreign user_id owner = truthy owner && not (owner == some user_id)

unfoldable pub has_foreign_identity : String → BazosAccount → Store → Bool
unfolding any
has_foreign_identity user_id a s =
    any (λ i. is_linked a i && is_foreign user_id i.user_id) s.identities

unfoldable pub reject_foreign : String → BazosAccount → M (Unit {0})
reject_foreign user_id a s = throw_if (has_foreign_identity user_id a s) bad_request s

unfoldable pub resolve_account_for_user : String → ℕ → M ℕ
resolve_account_for_user user_id account_id = do
  found ← find_unique bazos_account account_id
  account ← or_throw found bad_request
  throw_if (not account.is_active) bad_request
  throw_if (is_foreign user_id account.user_id) bad_request
  reject_foreign user_id account
  claim_account user_id account

abbrev pub linked_account : ℕ → String → CreateBazosIdentityDto → Option ℕ → M (Option ℕ)
linked_account now user_id dto none = ensure_account_for_user now user_id dto.bazos_email
linked_account now user_id dto (some account_id) = do
  id ← resolve_account_for_user user_id account_id
  return (some id)

abbrev pub is_taken : Option BazosIdentity → Bool
is_taken none = false
is_taken (some i) = true

abbrev pub new_identity : String → Option ℕ → CreateBazosIdentityDto → ℕ → BazosIdentity
new_identity user_id account_id dto id = record {
  id = id;
  account_id = account_id;
  user_id = some user_id;
  phone_number = dto.phone_number;
  display_name = dto.display_name;
  contact_name = or_else dto.contact_name none;
  contact_phone = or_else dto.contact_phone none;
  default_zip = or_else dto.default_zip none;
  default_location = or_else dto.default_location none;
  session_state = SessionState.missing;
  encrypted_session = none;
  status = IdentityStatus.draft;
  review_state = clear;
  verification_expires_at = none;
  active_ad_count = 0;
  next_publish_not_before = none;
  last_publish_attempt_at = none;
  notes = or_else dto.notes none;
}

unfoldable pub create_identity : ℕ → String → CreateBazosIdentityDto → M BazosIdentity
create_identity now user_id dto = do
  existing ← find_where bazos_identity λ i. i.phone_number == dto.phone_number
  throw_if (is_taken existing) conflict
  account_id ← linked_account now user_id dto dto.account_id
  create bazos_identity (new_identity user_id account_id dto)
