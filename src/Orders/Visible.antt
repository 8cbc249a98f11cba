-- ===== src/Orders/Visible.antt =====
-- What an actor without a role of an administrator is shown.
use bazos.Store.Runs.{ok_inj, err-ne_ok}
use bazos.Base.{
  ℕ, ◌≤◌, ◌≡◌, refl, sym, ap, ◌∙◌, subst, Option, none, some, List, [], ◌∷◌, length, length-map,
  length-take-le, Bool, true, false, &&-eq-true, All, Exists, arith, any-eq-true_iff, All-map,
  All-take, All-sort_by, All-select, All-Exists, select-All, All-of, map-select-All, ==-iff, ◌==◌,
  nat_eq, codes_eq, ℤ, pos, negsuc, if◌then◌else◌, find_first-test, some_inj,
}
use bazos.Json.{Json, null, get}
use bazos.Store.{Store, BazosAccount, BazosOrder, M, ok, return}
use bazos.Orders.{OrdersEnv}
use bazos.Orders.Query.{
  parse_limit, limit_from, whole_of, clean_identifier, should_include_central_status,
}
use bazos.Orders.Read.{
  OrdersReadActor, OrderRead, has_order_read_admin_role, actor_user_id, is_account_of,
  account_ids_for_user, FindOrdersOptions, is_wanted, is_in, is_newer, find_orders, options_of,
  find_and_attach, find_in, find_for, find_for_user, find_visible_for_actor,
  attach_central_read_model, scoped, attached, find_order, find_one, find_one_in, find_one_for,
  find_one_visible_for_actor,
}

limit_from-le : (z : Option ℤ) → limit_from z ≤ 100
limit_from-le none = omega arith
limit_from-le (some (pos n)) = ground arith
limit_from-le (some (negsuc n)) = omega arith

pub parse_limit-le : (env : OrdersEnv) (v : Option Json) → parse_limit env v ≤ 100
unfolding parse_limit
parse_limit-le env none = omega arith
parse_limit-le env (some null) = omega arith
parse_limit-le env (some v) = limit_from-le (whole_of env v)

-- The account belongs to the user: its own `userId`, or that of one of its identities.
abbrev pub Owns : List ℕ → Store → ℕ → Type 0
Owns user s k = Exists (λ a. (a.id ≡ k) × (is_account_of user s.identities a ≡ true)) s.accounts

account_ids_for_user-Owns :
    (user : List ℕ) (s : Store) → All (Owns user s) (account_ids_for_user user s)
unfolding account_ids_for_user
account_ids_for_user-Owns user s =
    map-select-All (λ (a : BazosAccount). a.id) (is_account_of user s.identities) s.accounts

scoped-Owns :
    (env : OrdersEnv) (requested ids : List ℕ) (user : List ℕ) (s : Store)
    → All (Owns user s) ids
    → All (Owns user s) (scoped env requested ids)
scoped-Owns env [] ids user s h = h
scoped-Owns env (c ∷ cs) ids user s h = All-select (Owns user s) _ ids h

is_in-Owns :
    (user : List ℕ) (s : Store) (ids : List ℕ) (k : ℕ)
    → All (Owns user s) ids
    → is_in (some ids) k ≡ true
    → Owns user s k
is_in-Owns user s ids k all hit =
    let (i, owns, same) =
      All-Exists (Owns user s) (λ i. i ≡ k) ids all
        ((any-eq-true_iff (λ i. i ≡ k) (λ i. i == k) (λ i. ==-iff i k) ids).0 hit) in
    subst (Owns user s) same owns

find_orders-Owns :
    (options : FindOrdersOptions) (ids : List ℕ) (user : List ℕ) (s : Store)
    → options.account_ids ≡ some ids
    → All (Owns user s) ids
    → All (λ (o : BazosOrder). Owns user s o.account_id) (find_orders options s)
unfolding find_orders is_wanted
find_orders-Owns options ids user s these all = All-take _ options.limit _ (
    All-sort_by _ is_newer _ (
      select-All (is_wanted options) _ s.orders (
        All-of
          (λ o wanted.
            is_in-Owns user s ids o.account_id all
              (ap (λ l. is_in l o.account_id) (sym these) ∙ (&&-eq-true _ _ wanted).0))
          s.orders)))

length-found :
    (options : FindOrdersOptions) (s : Store) → length (find_orders options s) ≤ options.limit
unfolding find_orders
length-found options s = length-take-le options.limit _

-- What the actor may be shown: an order of an account of the user.
abbrev pub IsOwn : List ℕ → Store → OrderRead → Type 0
IsOwn user s r = Owns user s r.order.account_id

module _ (env : OrdersEnv) (query : Option Json) (user : List ℕ) (s : Store) where
  -- A read that ends, changes nothing, and shows at most 100 orders, all of the user.
  abbrev pub Shows : M (List OrderRead) → Type 0
  Shows m = (rs : List OrderRead) × (m s ≡ (ok rs, s)) × (length rs ≤ 100) × All (IsOwn user s) rs

  find_and_attach-Shows :
      (ids : List ℕ) → All (Owns user s) ids → Shows (find_and_attach env query (some ids))
  unfolding find_and_attach options_of
  find_and_attach-Shows ids all =
      let options = options_of env query (some ids) in
      let found = find_orders options s in
      (
        _,
        refl,
        omega (
          arith,
          length-map (attach_central_read_model env (should_include_central_status query)) found,
          length-found options s,
          parse_limit-le env (get query "limit"),
        ),
        All-map (IsOwn user s) _ found (find_orders-Owns options ids user s refl all),
      )

  find_in-Shows : (ids : List ℕ) → All (Owns user s) ids → Shows (find_in env query ids)
  unfolding return
  find_in-Shows [] all = ([], refl, omega arith, tt)
  find_in-Shows (i ∷ is) all = find_and_attach-Shows (i ∷ is) all

find_for-Shows :
    (env : OrdersEnv) (query : Option Json) (user : List ℕ) (s : Store)
    → Shows env query user s (find_for env query user)
find_for-Shows env query [] s = ([], refl, omega arith, tt)
find_for-Shows env query (c ∷ cs) s = find_in-Shows env query (c ∷ cs) s _ (
    scoped-Owns env (clean_identifier (get query "accountId")) _ (c ∷ cs) s
      (account_ids_for_user-Owns (c ∷ cs) s))

-- An actor without a role of an administrator always gets a list of orders. It has at most 100
-- orders, and each of them is an order of an account that is the actor's or has an identity of the
-- actor. Nothing is written.
pub find_visible_for_actor-IsOwn :
    (env : OrdersEnv) (actor : OrdersReadActor) (query : Option Json) (s : Store)
    → has_order_read_admin_role actor ≡ false
    → (rs : List OrderRead) × (find_visible_for_actor env actor query s ≡ (ok rs, s))
      × (length rs ≤ 100)
      × All (IsOwn (actor_user_id actor) s) rs
unfolding find_visible_for_actor find_for_user
find_visible_for_actor-IsOwn env actor query s other =
    rw other (find_for-Shows env query (actor_user_id actor) s)

found-order :
    (env : OrdersEnv) (query : Option Json) (o : Option BazosOrder) (r : OrderRead)
    → attached env query o ≡ some r
    → o ≡ some r.order
unfolding attach_central_read_model
found-order env query none r e = absurd (cc e)
found-order env query (some o) r e = ap (λ (x : OrderRead). some x.order) (some_inj e)

module _ (env : OrdersEnv) (id : List ℕ) (query : Option Json) (s : Store) (r : OrderRead) where
  find_order-found :
      (p : BazosOrder → Bool) (k : Option ℕ)
      → (find_order env query p k s).0 ≡ ok (some r)
      → (k ≡ some r.order.id) × (p r.order ≡ true)
  find_order-found p none e = absurd (err-ne_ok e)
  find_order-found p (some k) e =
      let (here, passes) =
        &&-eq-true _ _
          (find_first-test _ s.orders r.order (found-order env query _ r (ok_inj e))) in
      (ap some (sym ((==-iff r.order.id k).0 here)), passes)

  find_one_in-found :
      (user ids : List ℕ)
      → All (Owns user s) ids
      → (find_one_in env id query ids s).0 ≡ ok (some r)
      → (env.read_id id ≡ some r.order.id) × IsOwn user s r
  find_one_in-found user [] all e = absurd (cc (ok_inj e))
  find_one_in-found user (i ∷ is) all e =
      let (same, hit) = find_order-found _ (env.read_id id) e in
      (same, is_in-Owns user s (i ∷ is) r.order.account_id all hit)

  find_one_for-found :
      (user : List ℕ)
      → (find_one_for env id query user s).0 ≡ ok (some r)
      → (env.read_id id ≡ some r.order.id) × IsOwn user s r
  find_one_for-found [] e = absurd (cc (ok_inj e))
  find_one_for-found (c ∷ cs) e =
      find_one_in-found (c ∷ cs) _ (account_ids_for_user-Owns (c ∷ cs) s) e

-- An order that an actor without a role of an administrator is shown by its identifier has that
-- identifier, and is an order of an account that is the actor's or has an identity of the actor.
pub find_one_visible_for_actor-IsOwn :
    (env : OrdersEnv) (id : List ℕ) (actor : OrdersReadActor) (query : Option Json) (s : Store)
    (r : OrderRead)
    → has_order_read_admin_role actor ≡ false
    → (find_one_visible_for_actor env id actor query s).0 ≡ ok (some r)
    → (env.read_id id ≡ some r.order.id) × IsOwn (actor_user_id actor) s r
unfolding find_one_visible_for_actor
find_one_visible_for_actor-IsOwn env id actor query s r other e =
    find_one_for-found env id query s r (actor_user_id actor) (
      subst
        (λ b.
          ((if b then find_one env id query else find_one_for env id query (actor_user_id actor))
            s).0
          ≡ ok (some r))
        other e)
