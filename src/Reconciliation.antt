-- ===== src/Reconciliation.antt =====
-- shared/bazos/reconciliation/bazos-availability-reconciliation.service.ts: ads whose product can no
-- longer be sold are disabled.
pub mod Laws
pub mod Effects
mod Tests
use bazos.Base.{
  ℕ, zero, suc, ◌+◌, Option, none, some, List, [], ◌∷◌, map, length, take, Bool, true, false, not,
  ◌&&◌, ◌||◌, if◌then◌else◌, ltb, any, select, ◌==◌, nat_eq, codes_eq, option_eq, codes, String, ℤ,
  pos, negsuc,
}
use bazos.Json.{
  Json, null, is_truthy, first_truthy, first_given, shown_or_empty, boolean_false, trimmed_lower,
}
use bazos.Store.{
  Store, BazosAd, M, Outcome, ok, err, Error, return, throw, ◌>>=◌, find_many, update, bazos_ad,
  UnavailableReason, catalog_product_missing, catalog_product_archived, catalog_product_deleted,
  catalog_product_inactive, catalog_product_not_sellable, warehouse_stock_unavailable,
  Reconciliation, check_object, PublishStatus, published, publishing, publish_status_eq,
}
use bazos.Store.Loops.{for_each, catch}

-- What Catalog answers for a product (`none` where the request fails), the total that Warehouse
-- answers, as a number rounded up (`none` where it is not finite) or an error, the limit of the
-- environment as a number rounded down, and the order in which the database lists ads.
pub record ReconciliationEnv : Type 0 where
  pub now : ℕ
  pub get_product_by_id : ℕ → Option Json
  pub get_total_available : ℕ → Outcome (Option ℤ)
  pub default_limit : Option ℤ
  pub by_updated_at : List BazosAd → List BazosAd

-- The limit of the request, rounded down, and the option for a run without writes. A limit that is
-- absent, 0 or no number is `none`; one that is not finite is `some none`.
pub record Options : Type 0 where
  pub limit : Option (Option ℤ)
  pub dry_run : Bool

abbrev pub clamp : ℕ → ℕ
clamp n = if ltb n 1 then 1 else (if ltb 1000 n then 1000 else n)

abbrev pub clamp_limit : Option ℤ → ℕ
clamp_limit none = 200
clamp_limit (some (pos n)) = clamp n
clamp_limit (some (negsuc n)) = 1

abbrev pub or_default : Option (Option ℤ) → Option ℤ → Option ℤ
or_default none d = d
or_default (some z) d = z

unfoldable pub limit_of : ReconciliationEnv → Option (Option ℤ) → ℕ
limit_of env value = clamp_limit (or_default value env.default_limit)

abbrev pub is_given : Option ℕ → Bool
is_given none = false
is_given (some p) = true

unfoldable pub is_candidate : BazosAd → Bool
unfolding any
is_candidate ad =
    is_given ad.product_id
    && (ad.is_active
        || (ltb 0 ad.stock_quantity
            || any (λ t. ad.publish_status == t)
                (PublishStatus.active ∷ published ∷ publishing ∷ PublishStatus.queued ∷ [])))

unfoldable pub product_status : Json → List ℕ
unfolding trimmed_lower shown_or_empty first_truthy
product_status product = trimmed_lower (
    shown_or_empty (
      first_truthy (some product)
        (("status" ∷ []) ∷ ("lifecycleStatus" ∷ []) ∷ ("state" ∷ []) ∷ [])))

unfoldable pub non_sellable_reason : Json → Option UnavailableReason
unfolding product_status boolean_false first_given
non_sellable_reason product =
    if product_status product == codes "deleted"
    then some catalog_product_deleted
    else (if product_status product == codes "archived"
        then some catalog_product_archived
        else (if product_status product == codes "inactive"
            then some catalog_product_inactive
            else (if boolean_false
                  (first_given (some product) (("isActive" ∷ []) ∷ ("active" ∷ []) ∷ []))
                then some catalog_product_inactive
                else (if boolean_false (
                      first_given (some product) (
                        ("isSellable" ∷ [])
                        ∷ ("sellable" ∷ [])
                        ∷ ("offerable" ∷ [])
                        ∷ ("isOfferable" ∷ [])
                        ∷ []))
                    then some catalog_product_not_sellable
                    else none))))

-- `catalogNonSellableReason`; a failed request counts as a product that is missing.
unfoldable pub catalog_non_sellable_reason : Option Json → Option UnavailableReason
unfolding is_truthy non_sellable_reason
catalog_non_sellable_reason none = some catalog_product_missing
catalog_non_sellable_reason (some product) =
    if is_truthy (some product) then non_sellable_reason product else some catalog_product_missing

abbrev pub warehouse_reason : Option ℤ → Option UnavailableReason
warehouse_reason (some (pos (suc n))) = none
warehouse_reason total = some warehouse_stock_unavailable

abbrev pub ask_warehouse : Outcome (Option ℤ) → M (Option UnavailableReason)
ask_warehouse (ok total) = return (warehouse_reason total)
ask_warehouse (err e) = throw e

abbrev pub unless_known :
    Outcome (Option ℤ) → Option UnavailableReason → M (Option UnavailableReason)
unless_known reply none = ask_warehouse reply
unless_known reply (some reason) = return (some reason)

-- The reason to disable the ads of a product, if there is one. A failure of Warehouse is thrown.
unfoldable pub evaluate_product : ReconciliationEnv → ℕ → M (Option UnavailableReason)
unfolding catalog_non_sellable_reason return throw
evaluate_product env product =
    unless_known (env.get_total_available product)
      (catalog_non_sellable_reason (env.get_product_by_id product))

abbrev pub reconciliation_of : ℕ → UnavailableReason → BazosAd → Reconciliation
reconciliation_of now reason ad = record {
  reason = reason;
  previous_quantity = ad.stock_quantity;
  previous_is_active = ad.is_active;
  previous_publish_status = ad.publish_status;
  previous_challenge_state = ad.challenge_state;
  at = now;
}

abbrev pub disabled_by : ℕ → UnavailableReason → BazosAd → BazosAd → BazosAd
disabled_by now reason ad row = record row {
  stock_quantity = 0;
  is_active = false;
  publish_status = PublishStatus.deleted;
  challenge_state = none;
  last_policy_check = some (record (check_object ad.last_policy_check) {
    availability_reconciliation = some (reconciliation_of now reason ad);
  });
}

pub data Verdict : Type 0 where
  disabled kept failed : Verdict

abbrev pub disable_ad : ℕ → BazosAd → UnavailableReason → M BazosAd
disable_ad now ad reason = update bazos_ad ad.id (disabled_by now reason ad)

abbrev pub disable_if : Bool → ℕ → BazosAd → Option UnavailableReason → M Verdict
disable_if dry_run now ad none = return kept
disable_if true now ad (some reason) = return disabled
disable_if false now ad (some reason) = do _ ← disable_ad now ad reason; return disabled

abbrev pub verdict_of : Outcome Verdict → M Verdict
verdict_of (ok v) = return v
verdict_of (err e) = return failed

abbrev pub judge_product : ReconciliationEnv → Bool → BazosAd → Option ℕ → M Verdict
judge_product env dry_run ad none = return kept
judge_product env dry_run ad (some product) = do
  r ← catch (evaluate_product env product >>= disable_if dry_run env.now ad)
  verdict_of r

unfoldable pub judge : ReconciliationEnv → Bool → BazosAd → M Verdict
unfolding evaluate_product catch
judge env dry_run ad = judge_product env dry_run ad ad.product_id

abbrev is_verdict : Verdict → Verdict → Bool
is_verdict disabled disabled = true
is_verdict kept kept = true
is_verdict failed failed = true
is_verdict v w = false

abbrev pub count_of : Verdict → List Verdict → ℕ
count_of v vs = length (select (is_verdict v) vs)

pub record ReconciliationResult : Type 0 where
  pub scanned : ℕ
  pub disabled_count : ℕ
  pub kept_count : ℕ
  pub failed_count : ℕ
  pub dry_run : Bool

unfoldable pub candidates : ReconciliationEnv → Option (Option ℤ) → Store → List BazosAd
unfolding is_candidate limit_of select
candidates env limit s = take (limit_of env limit) (env.by_updated_at (select is_candidate s.ads))

abbrev pub find_candidates : ReconciliationEnv → Option (Option ℤ) → M (List BazosAd)
find_candidates env limit s = (ok (candidates env limit s), s)

unfoldable pub reconcile : ReconciliationEnv → Options → M ReconciliationResult
unfolding judge candidates
reconcile env options = do
  ads ← find_candidates env options.limit
  verdicts ← for_each (judge env options.dry_run) ads
  return (record {
    scanned = length ads;
    disabled_count = count_of disabled verdicts;
    kept_count = count_of kept verdicts;
    failed_count = count_of failed verdicts;
    dry_run = options.dry_run;
  })
