-- ===== src/Publisher/ResultTests.antt =====
-- The theorems on recorded results at concrete inputs.
use bazos.Base.{
  ℕ_discrete, String-discrete, Optional-discrete, ◌≡◌, refl, none, some, true, false, any,
  find_first, update_where, arith, truthy,
}
use bazos.Store.{
  challenge_required, captcha_or_human_check_required, Error, err, Store, BazosPublishAttempt,
  submitted, AttemptStatus-discrete, ReviewState-discrete, ◌>>=◌,
}
use bazos.Store.Runs.{Ends}
use bazos.Policy.{evaluate}
use bazos.Publisher.Queue.{is_identity_of_user}
use bazos.Publisher.Claim.{find_attempt_for_user, find_attempt_ad}
use bazos.Publisher.Record.{
  RecordBazosPublishResultDto, not_given, given, record_challenge_result, record_result,
  record_successful_result,
}
use bazos.Publisher.Once.{record_result-once}
use bazos.Publisher.Stopped.{record_result-challenge_refused}
use bazos.Publisher.Cooldown.{record_result-evaluate_refused}
use bazos.Fixtures.{waiting_attempt, waiting, bicycle, open_day, request, noon}

abbrev success : RecordBazosPublishResultDto
success = record {
  success = true;
  bazos_ad_id = some "777";
  expires_at = none;
  challenge_state = not_given;
  error = none;
}

abbrev submitted_attempt : BazosPublishAttempt
submitted_attempt = record waiting_attempt {
  status = submitted;
  completed_at = some noon;
  error = none;
}

abbrev after_success : Store
after_success = (record_result noon 50 "eva" success waiting).1

mine : Ends (find_attempt_for_user 50 "eva") waiting waiting_attempt waiting
unfolding find_attempt_for_user is_identity_of_user find_first any ℕ_discrete String-discrete
    Optional-discrete
mine = record { value = refl; store = refl }

success-Ends : Ends (record_result noon 50 "eva" success) waiting submitted_attempt after_success
unfolding record_result record_successful_result find_attempt_for_user find_attempt_ad
    is_identity_of_user ◌>>=◌ truthy find_first update_where any ℕ_discrete String-discrete
    Optional-discrete AttemptStatus-discrete
success-Ends = record { value = refl; store = refl }

record_result-evaluate_refused_example : (evaluate open_day after_success request).allowed ≡ false
unfolding find_first truthy ℕ_discrete String-discrete
record_result-evaluate_refused_example =
    record_result-evaluate_refused noon 50 "eva" success waiting_attempt submitted_attempt bicycle
      "sport" waiting after_success open_day request success-Ends mine refl refl refl refl refl refl
      (omega arith)

abbrev failure : RecordBazosPublishResultDto
failure = record success { success = false; error = some "timeout" }

record_result-once_example :
    (e : Error) × ((record_result noon 50 "eva" failure after_success).0 ≡ err e)
    × ((record_result noon 50 "eva" failure after_success).1 ≡ after_success)
record_result-once_example =
    record_result-once noon 50 "eva" success waiting after_success submitted_attempt noon "eva"
      failure success-Ends

abbrev asked_for_captcha : RecordBazosPublishResultDto
asked_for_captcha = record failure { challenge_state = given captcha_or_human_check_required }

abbrev stopped_attempt : BazosPublishAttempt
stopped_attempt = record waiting_attempt {
  status = challenge_required;
  challenge_state = some captcha_or_human_check_required;
  completed_at = some noon;
  error = some "timeout";
}

abbrev after_captcha : Store
after_captcha = (record_result noon 50 "eva" asked_for_captcha waiting).1

captcha-Ends :
    Ends (record_result noon 50 "eva" asked_for_captcha) waiting stopped_attempt after_captcha
unfolding record_result record_challenge_result find_attempt_for_user find_attempt_ad
    is_identity_of_user ◌>>=◌ truthy find_first update_where any ℕ_discrete String-discrete
    Optional-discrete AttemptStatus-discrete ReviewState-discrete
captcha-Ends = record { value = refl; store = refl }

record_result-challenge_refused_example : (evaluate open_day after_captcha request).allowed ≡ false
record_result-challenge_refused_example =
    record_result-challenge_refused noon 50 "eva" asked_for_captcha waiting_attempt stopped_attempt
      waiting after_captcha open_day request captcha-Ends mine refl refl refl
