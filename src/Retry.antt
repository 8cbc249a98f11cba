-- ===== src/Retry.antt =====
-- shared/resilience/retry.service.ts: a call that is tried again after a wait.
mod Tests
use bazos.Base.{
  ℕ, zero, suc, ◌+◌, ◌-◌, ◌*◌, ◌<◌, ◌≤◌, ◌≡◌, refl, sym, ap, ◌∙◌, Option, none, some, List, [], ◌∷◌,
  Bool, true, false, Bool-cases, inl, inr, ◌⊎◌, subst, if◌then◌else◌, ltb, arith,
}
use Prim.Native.Nat.{◌^◌}

-- What one call brings: a value, or an exception.
pub data Attempt (A E : Type 0) : Type 0 where
  resolved : A → Attempt A E
  rejected : E → Attempt A E

-- `lastError` is thrown, which is undefined (`none`) if there was no call.
pub data Result (A E : Type 0) : Type 0 where
  returned : A → Result A E
  thrown : Option E → Result A E

-- The result, and the milliseconds of each wait.
pub record Retried (A E : Type 0) : Type 0 where
  pub result : Result A E
  pub waits : List ℕ

module _ {A E : Type 0} (calls : ℕ → Attempt A E) (max_retries delay : ℕ) where
  abbrev pub after_wait : ℕ → Retried A E → Retried A E
  after_wait i rest =
      if ltb (i + 1) max_retries then record rest { waits = delay * 2 ^ i ∷ rest.waits } else rest

  abbrev pub or_rest : Attempt A E → ℕ → (E → Retried A E) → Retried A E
  or_rest (resolved a) i rest = record { result = returned a; waits = [] }
  or_rest (rejected e) i rest = after_wait i (rest e)

  -- The loop from `i`, with the calls that are left; `calls i` is the outcome of the call `i`.
  unfoldable pub retry_from : ℕ → ℕ → Option E → Retried A E
  retry_from zero i last_error = record { result = thrown last_error; waits = [] }
  retry_from (suc left) i last_error = or_rest (calls i) i λ e. retry_from left (i + 1) (some e)

  unfoldable pub retry : Retried A E
  unfolding retry_from
  retry = retry_from max_retries 0 none

module _ {A E : Type 0} where
  abbrev IsThrown : Result A E → Type 0
  IsThrown (returned a) = ⊥
  IsThrown (thrown e) = Unit

  abbrev returned_or : A → Result A E → A
  returned_or b (returned a) = a
  returned_or b (thrown e) = b

-- `delay`, then twice as long each time, beginning with the wait `i`.
abbrev pub backoff : ℕ → ℕ → ℕ → List ℕ
backoff delay i zero = []
backoff delay i (suc n) = delay * 2 ^ i ∷ backoff delay (i + 1) n

module _ {A E : Type 0} (calls : ℕ → Attempt A E) where
  -- The calls from `i` on, `n` of them, all fail.
  abbrev pub AllRejected : ℕ → ℕ → Type 0
  AllRejected i zero = Unit
  AllRejected i (suc n) = ((e : E) × (calls i ≡ rejected e)) × AllRejected (i + 1) n

module _ {A E : Type 0} (calls : ℕ → Attempt A E) (max_retries delay : ℕ) where
  retry_from-returned :
      (n left i : ℕ) (last_error : Option E) (a : A)
      → AllRejected calls i n
      → calls (i + n) ≡ resolved a
      → n < left
      → i + left ≡ max_retries
      → retry_from calls max_retries delay left i last_error
        ≡ record { result = returned a; waits = backoff delay i n }
  unfolding retry_from
  retry_from-returned n zero i last_error a fails done enough total = absurd (omega (arith, enough))
  retry_from-returned zero (suc left) i last_error a fails done enough total =
      let here : calls i ≡ resolved a = ap calls (omega arith) ∙ done in rw here refl
  retry_from-returned (suc n) (suc left) i last_error a ((e, failed), fails) done enough total =
      let rest =
        retry_from-returned n left (i + 1) (some e) a fails (ap calls (omega arith) ∙ done)
          (omega (arith, enough)) (omega (arith, total)) in
      let more : ltb (i + 1) max_retries ≡ true = ground (arith, enough, total) in
      rw (failed, rest, more) refl

  retry_from-thrown :
      (n i : ℕ) (last_error : Option E) (e : E)
      → AllRejected calls i n
      → calls (i + n) ≡ rejected e
      → i + suc n ≡ max_retries
      → retry_from calls max_retries delay (suc n) i last_error
        ≡ record { result = thrown (some e); waits = backoff delay i n }
  unfolding retry_from
  retry_from-thrown zero i last_error e fails last total =
      let here : calls i ≡ rejected e = ap calls (omega arith) ∙ last in
      let no_more : ltb (i + 1) max_retries ≡ false = ground (arith, total) in
      rw (here, no_more) refl
  retry_from-thrown (suc n) i last_error e ((f, failed), fails) last total =
      let rest =
        retry_from-thrown n (i + 1) (some f) e fails (ap calls (omega arith) ∙ last)
          (omega (arith, total)) in
      let more : ltb (i + 1) max_retries ≡ true = ground (arith, total) in
      rw (failed, rest, more) refl

  after_wait-result :
      (i : ℕ) (rest : Retried A E)
      → (after_wait calls max_retries delay i rest).result ≡ rest.result
  after_wait-result i rest = elim (Bool-cases (ltb (i + 1) max_retries)) [
    | inl more ↦ rw more refl
    | inr last ↦ rw last refl
  ]

  abbrev IsFound : ℕ → ℕ → A → Type 0
  IsFound left i a = (k : ℕ) × (k < left) × AllRejected calls i k × (calls (i + k) ≡ resolved a)

  outcome-IsFound :
      (left i : ℕ) (a : A) (r : Attempt A E)
      → calls i ≡ r
      → (rest : E → Retried A E) → ((x : E) → (rest x).result ≡ returned a → IsFound left (i + 1) a)
      → (or_rest calls max_retries delay r i rest).result ≡ returned a
      → IsFound (suc left) i a
  outcome-IsFound left i a (resolved b) here rest later done = (
    0,
    omega arith,
    tt,
    ap calls (omega arith) ∙ (here ∙ ap (λ r. resolved (returned_or b r)) done),
  )
  outcome-IsFound left i a (rejected x) here rest later done =
      let (k, before, fails, found) = later x (sym (after_wait-result i (rest x)) ∙ done) in
      (suc k, omega (arith, before), ((x, here), fails), ap calls (omega arith) ∙ found)

  -- The way back: a value that is returned is that of the first call that did not fail.
  retry_from-IsFound :
      (left i : ℕ) (last_error : Option E) (a : A)
      → (retry_from calls max_retries delay left i last_error).result ≡ returned a
      → IsFound left i a
  unfolding retry_from
  retry_from-IsFound zero i last_error a e = absurd (subst IsThrown e tt)
  retry_from-IsFound (suc left) i last_error a e =
      outcome-IsFound left i a (calls i) refl
        (λ x. retry_from calls max_retries delay left (i + 1) (some x))
        (λ x. retry_from-IsFound left (i + 1) (some x) a) e

-- A value that is returned is that of a call within the number of tries before which all failed.
pub retry-IsFound :
    {A E : Type 0} (calls : ℕ → Attempt A E) (max_retries delay : ℕ) (a : A)
    → (retry calls max_retries delay).result ≡ returned a
    → (k : ℕ) × (k < max_retries) × AllRejected calls 0 k × (calls k ≡ resolved a)
unfolding retry
retry-IsFound calls max_retries delay a e =
    let (k, before, fails, found) =
      retry_from-IsFound calls max_retries delay max_retries 0 none a e in
    (k, before, fails, ap calls (omega arith) ∙ found)

-- What is to come of the retries if the call `k` is the last one.
abbrev pub ended_by : {A E : Type 0} → ℕ → ℕ → Attempt A E → Retried A E
ended_by delay k (resolved a) = record { result = returned a; waits = backoff delay 0 k }
ended_by delay k (rejected e) = record { result = thrown (some e); waits = backoff delay 0 k }

abbrev pub IsResolved : {A E : Type 0} → Attempt A E → Type 0
IsResolved (resolved a) = Unit
IsResolved (rejected e) = ⊥

retry_from-ended :
    {A E : Type 0} (calls : ℕ → Attempt A E) (max_retries delay k : ℕ) (r : Attempt A E)
    → calls k ≡ r
    → AllRejected calls 0 k
    → k < max_retries
    → IsResolved r ⊎ (suc k ≡ max_retries)
    → retry_from calls max_retries delay max_retries 0 none ≡ ended_by delay k r
retry_from-ended calls max_retries delay k (resolved a) here fails enough last =
    retry_from-returned calls max_retries delay k max_retries 0 none a fails
      (ap calls (omega arith) ∙ here) enough (omega arith)
retry_from-ended calls max_retries delay k (rejected e) here fails enough (inl resolves) =
    absurd resolves
retry_from-ended calls max_retries delay k (rejected e) here fails enough (inr total) =
    ap (λ n. retry_from calls max_retries delay n 0 none) (sym total)
    ∙ retry_from-thrown calls max_retries delay k 0 none e fails (ap calls (omega arith) ∙ here)
        (omega (arith, total))

-- If the first k calls fail, k is below the number of tries, and the next call succeeds or is the
-- last one, then it ends the retries: the value that it brings is returned, or its exception is
-- thrown, after k waits, each twice as long as the one before.
pub retry-ended :
    {A E : Type 0} (calls : ℕ → Attempt A E) (max_retries delay k : ℕ)
    → AllRejected calls 0 k
    → k < max_retries
    → IsResolved (calls k) ⊎ (suc k ≡ max_retries)
    → retry calls max_retries delay ≡ ended_by delay k (calls k)
unfolding retry
retry-ended calls max_retries delay k fails enough last =
    retry_from-ended calls max_retries delay k (calls k) refl fails enough last
