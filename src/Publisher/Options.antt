-- ===== src/Publisher/Options.antt =====
-- shared/bazos/publisher/bazos-publisher-queue.service.ts: the options of a submission, and the
-- packet that the operator's browser is given.
use bazos.Base.{
  ℕ, suc, Option, none, some, List, [], ◌∷◌, Bool, false, not, ◌&&◌, ◌||◌, if◌then◌else◌, ltb,
  String, ◌==◌, option_eq, string_eq, truthy, or_else, take, select, codes, to_lower, begins_with,
}
use bazos.Gate.{PolicyEvaluationResult}
use bazos.Store.{
  BazosAd, BazosIdentity, BazosPublishAttempt, MediaItem, SubmissionOptions, PolicyCheck,
  empty_check, ReviewState, verification_required, bank_verification_required,
  captcha_or_human_check_required, session_expired, blocked_by_bazos, duplicate_rejected,
  content_policy_rejected, category_review_required,
}

-- `Number.isFinite(n) && n > 0 && (!option || option === 'v_textu')`, with the price in hundredths.
unfoldable pub effective_price_option : ℕ → Option String → Option String
unfolding truthy or_else
effective_price_option price option =
    if ltb 0 price && (not (truthy option) || option == some "v_textu")
    then some "fixed_price"
    else or_else option (some "fixed_price")

-- `/^https?:\/\//i` on the code points.
unfoldable pub is_http_url : Option String → Bool
unfolding begins_with to_lower
is_http_url none = false
is_http_url (some url) =
    begins_with (codes "http://") (to_lower url) || begins_with (codes "https://") (to_lower url)

abbrev or_index : ℕ → Option ℕ → Option ℕ
or_index index none = some index
or_index index (some n) = some n

unfoldable pub normalized_item : ℕ → MediaItem → MediaItem
unfolding or_else
normalized_item index item = record {
  id = or_else item.id none;
  url = item.url;
  thumbnail_url = or_else item.thumbnail_url item.url;
  alt_text = or_else item.alt_text (or_else item.title none);
  title = or_else item.title (or_else item.alt_text none);
  position = or_index index item.position;
}

number_from : ℕ → List MediaItem → List MediaItem
unfolding normalized_item
number_from index [] = []
number_from index (item ∷ items) = normalized_item index item ∷ number_from (suc index) items

abbrev media_list : Option (List MediaItem) → List MediaItem
media_list none = []
media_list (some items) = items

unfoldable pub normalize_media_overrides : Option (List MediaItem) → List MediaItem
unfolding number_from is_http_url select
normalize_media_overrides media =
    number_from 0 (take 20 (select (λ (item : MediaItem). is_http_url item.url) (media_list media)))

abbrev first_of_two {ℓ} : {A : Type ℓ} → Option A → Option A → Option A
first_of_two none b = b
first_of_two (some a) b = some a

abbrev pub no_options : SubmissionOptions
no_options = record { rubric = none; price_option = none; media = none }

abbrev options_or_none : Option SubmissionOptions → SubmissionOptions
options_or_none none = no_options
options_or_none (some o) = o

-- `lastPolicyCheck?.draftOptions || lastPolicyCheck?.submissionOptions || {}`
unfoldable pub draft_options_of : Option PolicyCheck → SubmissionOptions
draft_options_of none = no_options
draft_options_of (some c) = options_or_none (first_of_two c.draft_options c.submission_options)

unfoldable pub submission_options : PolicyCheck → BazosAd → SubmissionOptions
unfolding draft_options_of effective_price_option normalize_media_overrides or_else
submission_options check ad =
    let policy = options_or_none check.submission_options in
    let draft = draft_options_of ad.last_policy_check in
    record {
      rubric = or_else policy.rubric (or_else draft.rubric none);
      price_option =
          effective_price_option ad.price (or_else policy.price_option draft.price_option);
      media = some (normalize_media_overrides (first_of_two policy.media draft.media));
    }

unfoldable pub with_submission_options :
    PolicyEvaluationResult → BazosAd → Option String → PolicyCheck
unfolding draft_options_of effective_price_option normalize_media_overrides or_else
with_submission_options result ad price_option =
    let draft = draft_options_of ad.last_policy_check in
    record empty_check {
      result = some result;
      submission_options = some (record {
        rubric = or_else draft.rubric none;
        price_option = effective_price_option ad.price (or_else price_option draft.price_option);
        media = some (normalize_media_overrides draft.media);
      });
    }

pub record SubmissionPacket : Type 0 where
  pub stop_on_challenges : List ReviewState
  pub identity : BazosIdentity
  pub contact_phone : Option String
  pub ad : BazosAd
  pub location : Option String
  pub options : SubmissionOptions

unfoldable pub build_submission_packet :
    BazosPublishAttempt → BazosAd → BazosIdentity → SubmissionPacket
unfolding submission_options or_else
build_submission_packet attempt ad identity = record {
  stop_on_challenges =
      verification_required ∷ bank_verification_required ∷ captcha_or_human_check_required
      ∷ session_expired ∷ blocked_by_bazos ∷ duplicate_rejected ∷ content_policy_rejected
      ∷ category_review_required ∷ [];
  identity = identity;
  contact_phone = or_else identity.contact_phone (some identity.phone_number);
  ad = ad;
  location = or_else ad.location identity.default_location;
  options = submission_options attempt.policy_result ad;
}
