-- ===== src/Identity/Tests.antt =====
-- The theorems on identities at concrete inputs.
use bazos.Base.{
  ℕ_discrete, String-discrete, Optional-discrete, ◌≡◌, ◌⊎◌, inl, refl, none, some, [], ◌∷◌, false,
  Exists, List, find_first, update_where,
}
use bazos.Store.{captcha_or_human_check_required, ReviewState-discrete, ◌>>=◌}
use bazos.Policy.{evaluate}
use bazos.Identity.Input.{MarkChallengeDto}
use bazos.Identity.Record.{increment_active_ad_count, mark_challenge, challenged}
use bazos.Identity.Calls.{
  Call, marks_challenge, increments, Confirms, perform, perform_all, perform_all-IsVerified,
}
use bazos.Identity.Verified.{IsVerified}
use bazos.Identity.Challenge.{mark_challenge-evaluate_refused}
use bazos.Fixtures.{shop, seller, open_day, request}

abbrev captcha : MarkChallengeDto
captcha = record { challenge_state = some captcha_or_human_check_required; notes = none }

mark_challenge-evaluate_refused_example :
    (evaluate open_day (mark_challenge 1 "eva" captcha shop).1 request).allowed ≡ false
unfolding mark_challenge ◌>>=◌ find_first ℕ_discrete String-discrete Optional-discrete
    ReviewState-discrete
mark_challenge-evaluate_refused_example =
    mark_challenge-evaluate_refused 1 "eva" captcha shop
      (challenged captcha_or_human_check_required none seller) open_day request refl refl

abbrev busy_day : List Call
busy_day = increments 1 ∷ marks_challenge 1 "eva" captcha ∷ []

still-IsVerified : IsVerified 1 (perform_all busy_day shop)
unfolding perform_all perform increment_active_ad_count update_where mark_challenge ◌>>=◌ find_first
    ℕ_discrete String-discrete Optional-discrete ReviewState-discrete
still-IsVerified = inl (refl, refl)

perform_all-IsVerified_example : IsVerified 1 shop ⊎ Exists (Confirms 1) busy_day
perform_all-IsVerified_example = perform_all-IsVerified 1 busy_day shop still-IsVerified
