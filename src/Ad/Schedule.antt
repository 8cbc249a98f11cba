-- ===== src/Ad/Schedule.antt =====
-- When a followed ad is looked at again.
use bazos.Base.{
  ℕ, ◌+◌, ◌*◌, ◌≤◌, ◌<◌, ◌≡◌, refl, sym, ap, ◌∙◌, some, true, false, leb, arith, String, nat_eq,
  some_inj,
}
use bazos.Store.{Store, BazosAd, bazos_ad, by_key}
use bazos.Store.Runs.{Ends, update-Ends}
use bazos.Ad.Tracking.{
  TrackingEnv, minute, check_of, with_check, scheduled, schedule_next_availability_check,
  is_availability_check_due, next_availability_check_at,
}

-- A source of random numbers below a bound.
abbrev pub IsRandom : (ℕ → ℕ) → Type 0
IsRandom random = (n : ℕ) → 0 < n → random n < n

leb-false : (a b : ℕ) → b < a → leb a b ≡ false
leb-false a b h = ground (arith, h)

leb-true : (a b : ℕ) → a ≤ b → leb a b ≡ true
leb-true a b h = ground (arith, h)

abbrev pub rescheduled : TrackingEnv → BazosAd → ℕ → String → BazosAd → BazosAd
rescheduled env ad from reason x = record x {
  last_policy_check = with_check (scheduled env ad from reason) ad;
}

due_at :
    (env : TrackingEnv) (ad x : BazosAd) (from now : ℕ) (reason : String)
    → (check_of ad).enabled ≡ true
    → is_availability_check_due (rescheduled env ad from reason x) now
      ≡ leb (next_availability_check_at env from) now
unfolding is_availability_check_due
due_at env ad x from now reason enabled = rw enabled refl

-- For a random source that keeps below its bound, an ad that is followed, and whose schedule is
-- written, is not due in the 50 minutes after the time of the schedule, and is due from 70 minutes
-- after it.
schedule_next_availability_check-due :
    (env : TrackingEnv) (ad : BazosAd) (from : ℕ) (reason : String) (s t : Store) (row : BazosAd)
    → IsRandom env.random
    → (check_of ad).enabled ≡ true
    → Ends (schedule_next_availability_check env ad from reason) s row t
    → ((now : ℕ) → now < from + 50 * minute → is_availability_check_due row now ≡ false)
      × ((now : ℕ) → from + 70 * minute ≤ now → is_availability_check_due row now ≡ true)
unfolding schedule_next_availability_check is_availability_check_due
schedule_next_availability_check-due env ad from reason s t row random enabled e =
    let (x, found, same, _) = update-Ends bazos_ad ad.id _ e in
    let few = random 21 (omega arith) in
    (
      λ now early.
          ap (λ r. is_availability_check_due r now) (sym same)
          ∙ due_at env ad x from now reason enabled
          ∙ leb-false (next_availability_check_at env from) now (omega (arith, early)),
      λ now late.
          ap (λ r. is_availability_check_due r now) (sym same)
          ∙ due_at env ad x from now reason enabled
          ∙ leb-true (next_availability_check_at env from) now (omega (arith, late, few)),
    )

-- Writing the schedule of an ad that is not followed has no effect: if the ad's row is as it was
-- read, then the ad is due afterwards exactly when it was due before.
pub schedule_next_availability_check-ignored :
    (env : TrackingEnv) (ad : BazosAd) (from : ℕ) (reason : String) (s t : Store) (row : BazosAd)
    → (check_of ad).enabled ≡ false
    → by_key bazos_ad.key ad.id s.ads ≡ some ad
    → Ends (schedule_next_availability_check env ad from reason) s row t
    → (now : ℕ) → is_availability_check_due row now ≡ is_availability_check_due ad now
unfolding schedule_next_availability_check is_availability_check_due
schedule_next_availability_check-ignored env ad from reason s t row off current e now =
    let (x, found, same, _) = update-Ends bazos_ad ad.id _ e in
    let here = some_inj (sym current ∙ found) in
    ap (λ r. is_availability_check_due r now) (sym same)
    ∙ ap (λ y. is_availability_check_due (rescheduled env ad from reason y) now) (sym here)
    ∙ rw off refl
