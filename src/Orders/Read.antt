-- ===== src/Orders/Read.antt =====
-- `findAll`, `findForUser`, `findOne` and what an actor may see of them.
use bazos.Base.{
  ℕ, Option, none, some, List, [], ◌∷◌, map, take, Bool, true, false, ◌&&◌, ◌||◌, if◌then◌else◌,
  any, select, sort_by, ltb, ◌==◌, nat_eq, codes_eq, bool_eq, option_eq, string_eq, codes, String,
  or_else, trim, find_first,
}
use bazos.Json.{Json, text, get}
use bazos.Store.{
  Store, BazosAccount, BazosIdentity, BazosOrder, M, Outcome, ok, err, return, throw, invalid_query,
}
use bazos.Orders.{OrdersEnv, CentralStatus}
use bazos.Orders.Query.{
  clean_identifier, parse_optional_boolean, parse_limit, should_include_central_status,
}

-- `id`, `sub` and `userId` of the token, where they are texts.
pub record OrdersReadActor : Type 0 where
  pub id : Option String
  pub sub : Option String
  pub user_id : Option String
  pub roles : Option (List String)

abbrev admin_roles : List String
admin_roles =
    "global:superadmin" ∷ "global:platform_admin" ∷ "app:bazos-service:admin" ∷ "app:bazos:admin"
    ∷ "bazos:admin" ∷ []

abbrev roles_of : Option (List String) → List String
roles_of none = []
roles_of (some roles) = roles

unfoldable pub has_order_read_admin_role : OrdersReadActor → Bool
unfolding any
has_order_read_admin_role actor = any (λ r. any (λ a. a == r) admin_roles) (roles_of actor.roles)

abbrev pub cleaned : Option String → List ℕ
cleaned none = []
cleaned (some s) = clean_identifier (some (text s))

unfoldable pub actor_user_id : OrdersReadActor → List ℕ
unfolding clean_identifier or_else
actor_user_id actor = cleaned (or_else actor.id (or_else actor.sub actor.user_id))

abbrev pub is_user : List ℕ → Option String → Bool
is_user user none = false
is_user user (some u) = codes u == user

-- `OR: [{ userId }, { identities: { some: { userId } } }]`
unfoldable pub is_account_of : List ℕ → List BazosIdentity → BazosAccount → Bool
unfolding any
is_account_of user identities a =
    is_user user a.user_id
    || any (λ (i : BazosIdentity). i.account_id == some a.id && is_user user i.user_id) identities

unfoldable pub account_ids_for_user : List ℕ → Store → List ℕ
unfolding is_account_of select
account_ids_for_user user s =
    map (λ (a : BazosAccount). a.id) (select (is_account_of user s.identities) s.accounts)

pub record FindOrdersOptions : Type 0 where
  pub account_ids : Option (List ℕ)
  pub status : List ℕ
  pub forwarded : Option Bool
  pub limit : ℕ

abbrev pub is_in : Option (List ℕ) → ℕ → Bool
is_in none k = true
is_in (some ids) k = any (λ i. i == k) ids

abbrev pub matches_status : List ℕ → List ℕ → Bool
matches_status [] status = true
matches_status wanted status = status == wanted

abbrev pub matches_forwarded : Option Bool → Bool → Bool
matches_forwarded none forwarded = true
matches_forwarded (some b) forwarded = forwarded == b

unfoldable pub is_wanted : FindOrdersOptions → BazosOrder → Bool
unfolding any
is_wanted options o =
    is_in options.account_ids o.account_id
    && (matches_status options.status o.status && matches_forwarded options.forwarded o.forwarded)

abbrev pub is_newer : BazosOrder → BazosOrder → Bool
is_newer a b = ltb b.created_at a.created_at

unfoldable pub find_orders : FindOrdersOptions → Store → List BazosOrder
unfolding is_wanted select sort_by
find_orders options s = take options.limit (sort_by is_newer (select (is_wanted options) s.orders))

pub data CentralOrder : Type 0 where
  unforwarded unknown stale : CentralOrder
  central : CentralStatus → CentralOrder

abbrev pub lifecycle : Outcome CentralStatus → CentralOrder
lifecycle (ok c) = central c
lifecycle (err e) = stale

abbrev pub central_of : OrdersEnv → List ℕ → Bool → CentralOrder
central_of env [] true = unknown
central_of env [] false = unforwarded
central_of env id false = unforwarded
central_of env id true = lifecycle (env.get_order_lifecycle_status id)

abbrev order_id_text : Option (List ℕ) → List ℕ
order_id_text none = []
order_id_text (some id) = trim id

unfoldable pub build_central_order_read : OrdersEnv → BazosOrder → CentralOrder
unfolding trim
build_central_order_read env o = central_of env (order_id_text o.order_id) o.forwarded

pub record OrderRead : Type 0 where
  pub order : BazosOrder
  pub central_order : Option CentralOrder

unfoldable pub attach_central_read_model : OrdersEnv → Bool → BazosOrder → OrderRead
unfolding build_central_order_read
attach_central_read_model env include o = record {
  order = o;
  central_order = if include then some (build_central_order_read env o) else none;
}

unfoldable pub options_of : OrdersEnv → Option Json → Option (List ℕ) → FindOrdersOptions
unfolding clean_identifier parse_optional_boolean parse_limit get
options_of env query account_ids = record {
  account_ids = account_ids;
  status = clean_identifier (get query "status");
  forwarded = parse_optional_boolean (get query "forwarded");
  limit = parse_limit env (get query "limit");
}

unfoldable pub find_and_attach : OrdersEnv → Option Json → Option (List ℕ) → M (List OrderRead)
unfolding find_orders options_of attach_central_read_model should_include_central_status
find_and_attach env query account_ids s = (
  ok (
      map (attach_central_read_model env (should_include_central_status query))
        (find_orders (options_of env query account_ids) s)),
  s,
)

abbrev by_account : OrdersEnv → Option Json → Option ℕ → M (List OrderRead)
by_account env query none = throw invalid_query
by_account env query (some k) = find_and_attach env query (some (k ∷ []))

abbrev all_or_by_account : OrdersEnv → Option Json → List ℕ → M (List OrderRead)
all_or_by_account env query [] = find_and_attach env query none
all_or_by_account env query id = by_account env query (env.read_id id)

unfoldable pub find_all : OrdersEnv → Option Json → M (List OrderRead)
unfolding find_and_attach clean_identifier get throw
find_all env query = all_or_by_account env query (clean_identifier (get query "accountId"))

abbrev pub scoped : OrdersEnv → List ℕ → List ℕ → List ℕ
scoped env [] ids = ids
scoped env requested ids = select (λ k. env.show_id k == requested) ids

abbrev pub find_in : OrdersEnv → Option Json → List ℕ → M (List OrderRead)
find_in env query [] = return []
find_in env query ids = find_and_attach env query (some ids)

abbrev pub find_for : OrdersEnv → Option Json → List ℕ → M (List OrderRead)
find_for env query [] s = (ok [], s)
find_for env query user s =
    find_in env query
      (scoped env (clean_identifier (get query "accountId")) (account_ids_for_user user s)) s

unfoldable pub find_for_user : OrdersEnv → List ℕ → Option Json → M (List OrderRead)
unfolding find_and_attach clean_identifier get account_ids_for_user select return
find_for_user env user query = find_for env query user

unfoldable pub find_visible_for_actor :
    OrdersEnv → OrdersReadActor → Option Json → M (List OrderRead)
unfolding has_order_read_admin_role find_all find_for_user actor_user_id
find_visible_for_actor env actor query =
    if has_order_read_admin_role actor
    then find_all env query
    else find_for_user env (actor_user_id actor) query

abbrev pub attached : OrdersEnv → Option Json → Option BazosOrder → Option OrderRead
attached env query none = none
attached env query (some o) =
    some (attach_central_read_model env (should_include_central_status query) o)

abbrev pub find_order :
    OrdersEnv → Option Json → (BazosOrder → Bool) → Option ℕ → M (Option OrderRead)
find_order env query p none s = (err invalid_query, s)
find_order env query p (some k) s =
    (ok (attached env query (find_first (λ o. (o.id == k) && p o) s.orders)), s)

unfoldable pub find_one : OrdersEnv → List ℕ → Option Json → M (Option OrderRead)
unfolding attach_central_read_model should_include_central_status find_first
find_one env id query = find_order env query (λ o. true) (env.read_id id)

abbrev pub find_one_in : OrdersEnv → List ℕ → Option Json → List ℕ → M (Option OrderRead)
find_one_in env id query [] s = (ok none, s)
find_one_in env id query ids s =
    find_order env query (λ o. is_in (some ids) o.account_id) (env.read_id id) s

abbrev pub find_one_for : OrdersEnv → List ℕ → Option Json → List ℕ → M (Option OrderRead)
find_one_for env id query [] s = (ok none, s)
find_one_for env id query user s = find_one_in env id query (account_ids_for_user user s) s

unfoldable pub find_one_visible_for_actor :
    OrdersEnv → List ℕ → OrdersReadActor → Option Json → M (Option OrderRead)
unfolding has_order_read_admin_role find_one actor_user_id account_ids_for_user any find_first
find_one_visible_for_actor env id actor query =
    if has_order_read_admin_role actor
    then find_one env id query
    else find_one_for env id query (actor_user_id actor)
