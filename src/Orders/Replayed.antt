-- ===== src/Orders/Replayed.antt =====
-- What the events of past orders say.
use bazos.Base.{
  ℕ, ◌≡◌, refl, subst, Option, none, some, List, [], ◌∷◌, take, length, Bool, if◌then◌else◌, true,
  false, inl, inr, ◌⊎◌, arith, ◌≤◌, Exists, All, All-weaken, Exists-take, Exists-sort_by,
  Exists-select, Exists-weaken, length-take-le, ltb, codes_eq, trim,
}
use bazos.Json.{Json, get}
use bazos.Store.{Store, BazosOrder}
use bazos.Orders.Visible.{parse_limit-le}
use bazos.Orders.Query.{parse_limit}
use bazos.Orders.Replay.{
  ReplayEnv, AffinityEvent, product_ids, replay_snapshots, to_order_affinity_replay_event,
  push_event, events_of, replayed_orders, get_order_affinity_replay_candidates, iso_or_null,
  is_older, safe_replay_order_id, order_occurred_at,
}
use bazos.Orders.Asked.{IsAsked, is_replayed-IsAsked}
use bazos.Orders.Several.{HasTwo, two_differ, few-HasTwo}

-- When the order was paid, or else made.
abbrev pub IsTimeOf : Option ℕ → ℕ → ℕ → Type 0
IsTimeOf none created at = at ≡ created
IsTimeOf (some paid) created at = at ≡ paid

module _ {A : Type 0} (env : ReplayEnv A) where
  -- An event of the order `o`, in which no product stands alone.
  pub record IsEventOf (o : BazosOrder) (e : AffinityEvent A) : Type 0 where
    pub order : e.safe_order_id ≡ take 32 (env.digest (env.items.orders.show_id o.id))
    pub time : IsTimeOf (env.paid_at o) o.created_at e.occurred_at
    pub currency : e.currency ≡ trim (env.currency o)
    pub items : e.items ≡ replay_snapshots env (env.item_snapshots o)
    pub two_products : HasTwo (product_ids env e.items)

  not_few : (n : ℕ) → ltb n 2 ≡ false → 2 ≤ n
  not_few n e = ground (arith, e)

  else_some :
      (b : Bool) (x e : AffinityEvent A)
      → (if b then none else some x) ≡ some e
      → (b ≡ false) × (x ≡ e)
  else_some true x e h = absurd (cc h)
  else_some false x e h = (refl, cc)

  time_lem :
      (paid : Option ℕ) (o : BazosOrder)
      → env.paid_at o ≡ paid
      → IsTimeOf paid o.created_at (order_occurred_at env o)
  unfolding order_occurred_at
  time_lem none o e = rw e refl
  time_lem (some t) o e = rw e refl

  event-IsEventOf :
      (o : BazosOrder) (e : AffinityEvent A)
      → to_order_affinity_replay_event env o ≡ some e
      → IsEventOf o e
  unfolding to_order_affinity_replay_event safe_replay_order_id
  event-IsEventOf o e h =
      let (several, same) = else_some _ _ e h in
      subst (IsEventOf o) same (record {
        order = refl;
        time = time_lem (env.paid_at o) o refl;
        currency = refl;
        items = refl;
        two_products = λ product. two_differ product _ (not_few _ several);
      })

  few_or_told :
      (b : Bool) (n : ℕ) (x : AffinityEvent A)
      → ltb n 2 ≡ b
      → (if b then none else some x) ≡ none
      → n ≤ 1
  few_or_told true n x few h = ground (arith, few)
  few_or_told false n x few h = absurd (cc h)

  -- No event is made of an order with one product only.
  untold :
      (o : BazosOrder)
      → to_order_affinity_replay_event env o ≡ none
      → ¬ HasTwo (product_ids env (replay_snapshots env (env.item_snapshots o)))
  unfolding to_order_affinity_replay_event
  untold o h = few-HasTwo _ (few_or_told _ _ _ refl h)

  push_event-Exists :
      (o : BazosOrder) (m : Option (AffinityEvent A)) (es : List (AffinityEvent A))
      (os : List BazosOrder)
      → to_order_affinity_replay_event env o ≡ m
      → All (λ e. Exists (λ x. IsEventOf x e) os) es
      → All (λ e. Exists (λ x. IsEventOf x e) (o ∷ os)) (push_event env m es)
  push_event-Exists o none es os h all = All-weaken _ (λ e x. inr x) es all
  push_event-Exists o (some e) es os h all =
      (inl (event-IsEventOf o e h), All-weaken _ (λ f x. inr x) es all)

  events_of-Exists :
      (os : List BazosOrder) → All (λ e. Exists (λ o. IsEventOf o e) os) (events_of env os)
  unfolding events_of
  events_of-Exists [] = tt
  events_of-Exists (o ∷ os) = push_event-Exists o _ (events_of env os) os refl (events_of-Exists os)

  -- The order has an event, or has no two products.
  abbrev pub IsTold : List (AffinityEvent A) → BazosOrder → Type 0
  IsTold es o =
      Exists (IsEventOf o) es
      ⊎ ¬ HasTwo (product_ids env (replay_snapshots env (env.item_snapshots o)))

  push_event-IsTold :
      (o : BazosOrder) (m : Option (AffinityEvent A)) (es : List (AffinityEvent A))
      → to_order_affinity_replay_event env o ≡ m
      → IsTold (push_event env m es) o
  push_event-IsTold o none es h = inr (untold o h)
  push_event-IsTold o (some e) es h = inl (inl (event-IsEventOf o e h))

  push_event-keeps :
      (m : Option (AffinityEvent A)) (es : List (AffinityEvent A)) (o : BazosOrder)
      → IsTold es o
      → IsTold (push_event env m es) o
  push_event-keeps none es o told = told
  push_event-keeps (some e) es o (inl told) = inl (inr told)
  push_event-keeps (some e) es o (inr one) = inr one

  events_of-IsTold : (os : List BazosOrder) → All (IsTold (events_of env os)) os
  unfolding events_of
  events_of-IsTold [] = tt
  events_of-IsTold (o ∷ os) = (
    push_event-IsTold o _ (events_of env os) refl,
    All-weaken _ (push_event-keeps _ (events_of env os)) os (events_of-IsTold os),
  )

  -- An event of an order of the store that the query asks for.
  abbrev pub IsReplayed : Option Json → Store → AffinityEvent A → Type 0
  IsReplayed query s e =
      Exists
        (λ o.
          IsAsked (iso_or_null env (get query "from")) (iso_or_null env (get query "to")) o
          × IsEventOf o e)
        s.orders

  replayed_orders-IsReplayed :
      (query : Option Json) (s : Store) (e : AffinityEvent A)
      → Exists (λ o. IsEventOf o e) (replayed_orders env query s)
      → IsReplayed query s e
  unfolding replayed_orders
  replayed_orders-IsReplayed query s e found =
      let of_e : BazosOrder → Type 0 = λ o. IsEventOf o e in
      Exists-weaken _ (λ o (asked, told). (is_replayed-IsAsked _ _ o asked, told)) s.orders
        (Exists-select of_e _ s.orders (
          Exists-sort_by of_e is_older _
            (Exists-take of_e (parse_limit env.items.orders (get query "limit")) _ found)))

  length-replayed_orders :
      (query : Option Json) (s : Store)
      → length (replayed_orders env query s) ≤ parse_limit env.items.orders (get query "limit")
  unfolding replayed_orders
  length-replayed_orders query s =
      length-take-le (parse_limit env.items.orders (get query "limit")) _

  -- Each event of the replay is of an order that is there, whose payment and status are among those
  -- that the replay names, and that was made between the dates of the query. It has the digest, the
  -- time, the currency and the items of that order, and for each product there is an item of another
  -- one. At most 100 orders are read, and each of them has an event or no two products.
  pub get_order_affinity_replay_candidates-IsReplayed :
      (query : Option Json) (s : Store)
      → All (IsReplayed query s) (get_order_affinity_replay_candidates env query s).events
        × All
            (IsTold (get_order_affinity_replay_candidates env query s).events)
            (replayed_orders env query s)
        × (length (replayed_orders env query s) ≤ 100)
  unfolding get_order_affinity_replay_candidates
  get_order_affinity_replay_candidates-IsReplayed query s = (
    All-weaken _ (replayed_orders-IsReplayed query s) _
        (events_of-Exists (replayed_orders env query s)),
    events_of-IsTold (replayed_orders env query s),
    omega (
      arith,
      length-replayed_orders query s,
      parse_limit-le env.items.orders (get query "limit"),
    ),
  )
