-- ===== src/Ad/Tests.antt =====
-- The theorems on ads at concrete inputs.
use bazos.Base.{
  ℕ_discrete, String-discrete, Optional-discrete, ◌≡◌, refl, some, false, find_first, update_where,
  any, truthy,
}
use bazos.Gate.{PolicyEvaluationResult}
use bazos.Store.{Store, captcha_or_human_check_required, ReviewState-discrete, ◌>>=◌}
use bazos.Store.Runs.{Ends}
use bazos.Policy.{evaluate}
use bazos.Publisher.Queue.{consult, is_identity_of_user}
use bazos.Ad.{draft_input, evaluate_publish_policy, find_by_id_for_user, record_challenge}
use bazos.Ad.Laws.{evaluate_publish_policy-refused, record_challenge-evaluate_refused}
use bazos.Fixtures.{shop, bicycle, open_day, request}

abbrev draft_result : PolicyEvaluationResult
draft_result = evaluate open_day shop (draft_input bicycle 1 "sport")

draft-Ends :
    Ends
      (evaluate_publish_policy open_day 20 "eva")
      shop
      draft_result
      (evaluate_publish_policy open_day 20 "eva" shop).1
unfolding evaluate_publish_policy consult find_by_id_for_user is_identity_of_user ◌>>=◌ truthy
    find_first update_where any ℕ_discrete String-discrete Optional-discrete
draft-Ends = record { value = refl; store = refl }

evaluate_publish_policy-refused_example : draft_result.allowed ≡ false
evaluate_publish_policy-refused_example =
    evaluate_publish_policy-refused open_day 20 "eva" shop
      (evaluate_publish_policy open_day 20 "eva" shop).1 draft_result draft-Ends

abbrev stopped_shop : Store
stopped_shop = (record_challenge 20 "eva" (some captcha_or_human_check_required) shop).1

challenge-Ends :
    Ends (record_challenge 20 "eva" (some captcha_or_human_check_required)) shop tt stopped_shop
unfolding record_challenge find_by_id_for_user is_identity_of_user ◌>>=◌ find_first update_where any
    ℕ_discrete String-discrete Optional-discrete ReviewState-discrete
challenge-Ends = record { value = refl; store = refl }

owner-Ends : Ends (find_by_id_for_user 20 "eva") shop bicycle shop
unfolding find_by_id_for_user is_identity_of_user find_first any ℕ_discrete String-discrete
    Optional-discrete
owner-Ends = record { value = refl; store = refl }

record_challenge-evaluate_refused_example : (evaluate open_day stopped_shop request).allowed ≡ false
record_challenge-evaluate_refused_example =
    record_challenge-evaluate_refused 20 "eva" (some captcha_or_human_check_required) bicycle 1 shop
      stopped_shop open_day request challenge-Ends owner-Ends refl refl
