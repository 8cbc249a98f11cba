-- ===== src/Publisher/Tests.antt =====
-- The theorems on the queue at concrete inputs.
use bazos.Base.{
  ℕ, ◌+◌, ◌*◌, ◌<◌, ℕ_discrete, String-discrete, Optional-discrete, Codes-discrete, refl, none,
  some, true, false, any, Exists, find_first, update_where, select, sort_by, insert_by, arith,
  truthy, or_else,
}
use bazos.Store.{
  PublishStatus-discrete, BazosAd, BazosPublishAttempt, PolicyCheck, publishing,
  AttemptStatus-discrete, ReviewState-discrete, SessionState-discrete, IdentityStatus-discrete,
  ◌>>=◌,
}
use bazos.Store.Runs.{Ends}
use bazos.Gate.{ConsentScope-discrete}
use bazos.Policy.{evaluate, gate_failures, identity_gates}
use bazos.Policy.Gates.{
  live_consent, consent_gate, cooldown_gate, duplicate_gate, public_duplicate_gate,
  content_policy_gate, category_gate,
}
use bazos.Policy.Sources.{
  evaluate_warehouse_availability, evaluate_catalog_product_quality, is_catalog_bundle_readiness,
  is_blocking,
}
use bazos.Publisher.Options.{
  SubmissionPacket, submission_options, with_submission_options, build_submission_packet,
}
use bazos.Publisher.Queue.{
  PublisherEnv, EnqueueBazosPublishDto, queued, queued_attempt, enqueue_draft, enqueue_new,
  queue_attempt, find_ad_for_user, find_newest, assert_publishable_draft, is_identity_of_user,
  consult, evaluate_ad_policy,
}
use bazos.Publisher.Claim.{
  ClaimBazosPublishDto, claimed, claim_next, claim_first, claim_attempt, consider, recheck,
  find_due, due_attempts, is_claimable, identity_ids_for_user, ensure_ad_edit_password, start,
  ad_of,
}
use bazos.Publisher.Claimed.{IsFit}
use bazos.Publisher.Handout.{IsClaimable, claim_next-IsFit}
use bazos.Publisher.Queued.{IsQueuedFor, enqueue_draft-queued}
use bazos.Fixtures.{
  waiting_attempt, waiting, halves, shop, seller, bicycle, open_day, request, noon, clean,
}

abbrev publisher : PublisherEnv
publisher = record { policy = open_day; edit_password = "bz-secret" }

abbrev claim : ClaimBazosPublishDto
claim = record {
  public_duplicate_check = some (clean false);
  content_policy = some (clean true);
  price_option = none;
  limit = none;
}

abbrev claim_check : PolicyCheck
claim_check =
    with_submission_options (evaluate open_day waiting request) bicycle (some "fixed_price")

abbrev locked_bicycle : BazosAd
locked_bicycle = record bicycle {
  bazos_edit_password = some "bz-secret";
  publish_status = publishing;
  last_policy_check = some claim_check;
}

abbrev handed_out : BazosPublishAttempt
handed_out = start noon claim_check waiting_attempt

abbrev claimed_packet : SubmissionPacket
claimed_packet = build_submission_packet handed_out locked_bicycle seller

claim-Ends :
    Ends
      (claim_next publisher "eva" claim)
      waiting
      (claimed handed_out claimed_packet)
      (claim_next publisher "eva" claim waiting).1
unfolding claim_next claim_first claim_attempt consider recheck find_due due_attempts is_claimable
    identity_ids_for_user ensure_ad_edit_password consult evaluate_ad_policy submission_options
    ◌>>=◌ evaluate gate_failures identity_gates live_consent consent_gate cooldown_gate
    duplicate_gate evaluate_warehouse_availability evaluate_catalog_product_quality
    is_catalog_bundle_readiness is_blocking public_duplicate_gate content_policy_gate category_gate
    find_first update_where select sort_by insert_by any truthy or_else ℕ_discrete String-discrete
    Optional-discrete Codes-discrete AttemptStatus-discrete ReviewState-discrete
    SessionState-discrete IdentityStatus-discrete ConsentScope-discrete
claim-Ends = record { value = refl; store = refl }

claim_next-IsFit_example :
    Exists
      (λ a.
        IsClaimable noon "eva" waiting a
        × IsFit publisher claim waiting handed_out a (ad_of waiting a))
      waiting.attempts
claim_next-IsFit_example =
    claim_next-IsFit publisher "eva" claim waiting (claim_next publisher "eva" claim waiting).1
      handed_out claimed_packet claim-Ends

halves-bounded : (n : ℕ) → 0 < n → halves n < n
halves-bounded n h = ground arith

abbrev sell : EnqueueBazosPublishDto
sell = record {
  public_duplicate_check = some (clean false);
  content_policy = some (clean true);
  price_option = none;
}

abbrev first_check : PolicyCheck
first_check = with_submission_options (evaluate open_day shop request) bicycle none

abbrev first_attempt : BazosPublishAttempt
first_attempt = queued_attempt noon bicycle 1 first_check (noon + 120 * 1000) 100

enqueue-Ends :
    Ends
      (enqueue_draft publisher 20 "eva" sell)
      shop
      (queued first_attempt first_check)
      (enqueue_draft publisher 20 "eva" sell shop).1
unfolding enqueue_draft enqueue_new queue_attempt find_ad_for_user find_newest
    assert_publishable_draft consult is_identity_of_user PublishStatus-discrete ◌>>=◌ evaluate
    gate_failures identity_gates live_consent consent_gate cooldown_gate duplicate_gate
    evaluate_warehouse_availability evaluate_catalog_product_quality is_catalog_bundle_readiness
    is_blocking public_duplicate_gate content_policy_gate category_gate find_first update_where
    select sort_by insert_by any truthy or_else ℕ_discrete String-discrete Optional-discrete
    Codes-discrete AttemptStatus-discrete ReviewState-discrete SessionState-discrete
    IdentityStatus-discrete ConsentScope-discrete
enqueue-Ends = record { value = refl; store = refl }

enqueue_draft-queued_example :
    Exists (IsQueuedFor publisher 20 "eva" sell shop first_attempt) shop.ads
enqueue_draft-queued_example =
    enqueue_draft-queued publisher 20 "eva" sell first_check shop
      (enqueue_draft publisher 20 "eva" sell shop).1 first_attempt halves-bounded enqueue-Ends
