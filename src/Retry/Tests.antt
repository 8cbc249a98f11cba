-- ===== src/Retry/Tests.antt =====
-- The theorem on retries at a call that fails twice.
use bazos.Base.{ℕ, ◌≡◌, refl, some, inl, inr, [], ◌∷◌, if◌then◌else◌, ltb, arith}
use bazos.Retry.{Attempt, resolved, rejected, returned, thrown, retry, retry-ended}

abbrev third_time : ℕ → Attempt ℕ ℕ
third_time i = if ltb i 2 then rejected i else resolved 7

retry-ended_example :
    retry third_time 3 1000 ≡ record { result = returned 7; waits = 1000 ∷ 2000 ∷ [] }
retry-ended_example =
    retry-ended third_time 3 1000 2 ((0, refl), ((1, refl), tt)) (ground arith) (inl tt)

-- With two tries the second exception is thrown.
thrown_at_last : retry third_time 2 1000 ≡ record { result = thrown (some 1); waits = 1000 ∷ [] }
thrown_at_last = retry-ended third_time 2 1000 1 ((0, refl), tt) (ground arith) (inr refl)
