-- ===== src/Store/Tables.antt =====
-- The services' monad and the queries that they make. An operation takes a store, and returns the
-- new store with a value or with the exception that it throws: what was written before an exception
-- stays written, since the services open no transaction.
use bazos.Base.{
  ℕ, ◌+◌, Option, none, some, List, [], ◌∷◌, ◌++◌, Bool, true, false, find_first, select,
  update_where, length, ◌==◌, nat_eq, ◌≡◌, refl,
}
use bazos.Store.Rows.{
  Store, BazosAccount, BazosIdentity, BazosAd, BazosIdentityConsent, BazosIdentityCategoryCadence,
  BazosPublishAttempt, BazosVerificationSession,
}

-- NotFoundException, BadRequestException, ConflictException, a plain Error, Prisma's error for an
-- `update` of a row that is not there, and its error for a `null` in a unique key.
pub data Error : Type 0 where
  not_found bad_request conflict refused record_missing invalid_query : Error

pub data Outcome {ℓ} (A : Type ℓ) : Type ℓ where
  ok : A → Outcome A
  err : Error → Outcome A

abbrev pub M {ℓ} : Type ℓ → Type ℓ
M A = Store → Outcome A × Store

unfoldable pub return {ℓ} : {A : Type ℓ} → A → M A
return a s = (ok a, s)

unfoldable pub throw {ℓ} : {A : Type ℓ} → Error → M A
throw e s = (err e, s)

-- A guard clause, `if (test) throw e;`.
unfoldable pub throw_if : Bool → Error → M (Unit {0})
throw_if true e s = (err e, s)
throw_if false e s = (ok tt, s)

unfoldable pub or_throw {ℓ} : {A : Type ℓ} → Option A → Error → M A
or_throw none e s = (err e, s)
or_throw (some a) e s = (ok a, s)

pub record Table (R : Type 0) : Type 0 where
  pub rows : Store → List R
  pub with_rows : List R → Store → Store
  pub key : R → ℕ
  pub rows-with_rows : (rs : List R) (s : Store) → rows (with_rows rs s) ≡ rs
  pub rows-next_id : (s : Store) (n : ℕ) → rows (record s { next_id = n }) ≡ rows s

abbrev pub bazos_account : Table BazosAccount
bazos_account = record {
  rows = λ s. s.accounts;
  with_rows = λ rs s. record s { accounts = rs };
  key = λ r. r.id;
  rows-with_rows = λ rs s. refl;
  rows-next_id = λ s n. refl;
}

abbrev pub bazos_identity : Table BazosIdentity
bazos_identity = record {
  rows = λ s. s.identities;
  with_rows = λ rs s. record s { identities = rs };
  key = λ r. r.id;
  rows-with_rows = λ rs s. refl;
  rows-next_id = λ s n. refl;
}

abbrev pub bazos_ad : Table BazosAd
bazos_ad = record {
  rows = λ s. s.ads;
  with_rows = λ rs s. record s { ads = rs };
  key = λ r. r.id;
  rows-with_rows = λ rs s. refl;
  rows-next_id = λ s n. refl;
}

abbrev pub bazos_identity_consent : Table BazosIdentityConsent
bazos_identity_consent = record {
  rows = λ s. s.consents;
  with_rows = λ rs s. record s { consents = rs };
  key = λ r. r.id;
  rows-with_rows = λ rs s. refl;
  rows-next_id = λ s n. refl;
}

abbrev pub bazos_identity_category_cadence : Table BazosIdentityCategoryCadence
bazos_identity_category_cadence = record {
  rows = λ s. s.cadences;
  with_rows = λ rs s. record s { cadences = rs };
  key = λ r. r.id;
  rows-with_rows = λ rs s. refl;
  rows-next_id = λ s n. refl;
}

abbrev pub bazos_publish_attempt : Table BazosPublishAttempt
bazos_publish_attempt = record {
  rows = λ s. s.attempts;
  with_rows = λ rs s. record s { attempts = rs };
  key = λ r. r.id;
  rows-with_rows = λ rs s. refl;
  rows-next_id = λ s n. refl;
}

abbrev pub bazos_verification_session : Table BazosVerificationSession
bazos_verification_session = record {
  rows = λ s. s.sessions;
  with_rows = λ rs s. record s { sessions = rs };
  key = λ r. r.id;
  rows-with_rows = λ rs s. refl;
  rows-next_id = λ s n. refl;
}

module _ {R : Type 0} where
  abbrev pub by_key : (R → ℕ) → ℕ → List R → Option R
  by_key key k = find_first (λ r. key r == k)

  unfoldable pub find_unique : Table R → ℕ → M (Option R)
  find_unique t k s = (ok (by_key t.key k (t.rows s)), s)

  -- `findFirst` where no order is asked for.
  unfoldable pub find_where : Table R → (R → Bool) → M (Option R)
  find_where t p s = (ok (find_first p (t.rows s)), s)

  unfoldable pub find_many : Table R → (R → Bool) → M (List R)
  find_many t p s = (ok (select p (t.rows s)), s)

  unfoldable pub count : Table R → (R → Bool) → M ℕ
  count t p s = (ok (length (select p (t.rows s))), s)

  abbrev pub write : Table R → ℕ → (R → R) → Store → Option R → Outcome R × Store
  write t k f s none = (err record_missing, s)
  write t k f s (some r) = (ok (f r), t.with_rows (update_where (λ r. t.key r == k) f (t.rows s)) s)

  -- `update` by a unique key: the row with the change, which is written, or an exception.
  unfoldable pub update : Table R → ℕ → (R → R) → M R
  update t k f s = write t k f s (by_key t.key k (t.rows s))

  -- `updateMany`, which returns the number of rows changed.
  unfoldable pub update_many : Table R → (R → Bool) → (R → R) → M ℕ
  update_many t p f s =
      (ok (length (select p (t.rows s))), t.with_rows (update_where p f (t.rows s)) s)

  -- `create`: a row under a fresh identifier.
  unfoldable pub create : Table R → (ℕ → R) → M R
  create t row s =
      let r = row s.next_id in
      (ok r, t.with_rows (t.rows s ++ r ∷ []) (record s { next_id = s.next_id + 1 }))

abbrev pub continue {ℓ κ} :
    {A : Type ℓ} {B : Type κ} → (A → M B) → Outcome A × Store → Outcome B × Store
continue f (ok a, s) = f a s
continue f (err e, s) = (err e, s)

-- Opening this opens the queries too.
infixl 5 ◌>>=◌ ◌>>◌
unfoldable pub ◌>>=◌ {ℓ κ} : {A : Type ℓ} {B : Type κ} → M A → (A → M B) → M B
unfolding return throw throw_if or_throw find_unique find_where find_many count update update_many
    create
◌>>=◌ m f s = continue f (m s)

abbrev pub ◌>>◌ {ℓ} : {B : Type ℓ} → M (Unit {0}) → M B → M B
m >> k = m >>= λ _. k
