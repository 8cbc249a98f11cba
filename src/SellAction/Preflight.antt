-- ===== src/SellAction/Preflight.antt =====
-- The preflight of the sell action beside the gate of the publish policy that asks the same of
-- Catalog.
use bazos.Base.{
  ◌≡◌, refl, sym, ap, ◌∙◌, Option, none, some, List, [], ◌∷◌, ◌++◌, map, true, inl, inr, String,
  ◌==◌, string_eq, option_eq, bool_eq, codes_eq, ==-iff, &&-eq-true, Bool-cases, select, codes, All,
  subst, to_lower, lower_code,
}
use bazos.Policy.Input.{ready, Readiness, ReadinessIssue}
use bazos.Policy.Sources.{evaluate_readiness, lowered, issues_of}
use bazos.Policy.Permitted.{IsBlocking}
use bazos.Policy.GateLaws.{readiness_iff}
use bazos.SellAction.Quality.{
  evaluate_catalog_quality, quality_of, describe_catalog_quality_issue, is_catalog_quality_blocker,
  catalog_bundle_publication_issue, or_text,
}

described-blocking :
    (severity : Option String)
    → or_text severity "warning" ≡ "blocking"
    → lowered severity ≡ codes "blocking"
unfolding lowered to_lower lower_code
described-blocking none e = absurd (cc e)
described-blocking (some s) e = elim (Bool-cases (s == "")) [
  | inl empty ↦
      let replaced : or_text (some s) "warning" ≡ "warning" = rw empty refl in
      absurd (cc (sym replaced ∙ e))
  | inr full ↦
      let kept : or_text (some s) "warning" ≡ s = rw full refl in
      ap (λ t. lowered (some t)) (sym kept ∙ e)
]

-- What the preflight takes for a blocker is blocking for the gate too.
blocker-IsBlocking :
    (issue : ReadinessIssue)
    → is_catalog_quality_blocker (describe_catalog_quality_issue issue) ≡ true
    → IsBlocking issue
unfolding is_catalog_quality_blocker describe_catalog_quality_issue
blocker-IsBlocking issue e =
    described-blocking issue.severity
      ((==-iff (or_text issue.severity "warning") "blocking").0 (&&-eq-true _ _ e).0)

no_blockers :
    (issues : List ReadinessIssue)
    → All (λ issue. ¬ IsBlocking issue) issues
    → select is_catalog_quality_blocker (map describe_catalog_quality_issue issues ++ []) ≡ []
unfolding select
no_blockers [] h = refl
no_blockers (issue ∷ issues) (h, hs) =
    elim (Bool-cases (is_catalog_quality_blocker (describe_catalog_quality_issue issue))) [
      | inl blocks ↦ absurd (h (blocker-IsBlocking issue blocks))
      | inr fine ↦ rw fine (no_blockers issues hs)
    ]

-- The preflight is no stricter than the gate of the publish policy: if Catalog lists the issues of
-- a product and the gate finds nothing against it, then the preflight allows it.
pub evaluate_catalog_quality-allowed :
    (r : Readiness) (issues : List ReadinessIssue)
    → r.issues ≡ some issues
    → evaluate_readiness (ready r) ≡ []
    → (evaluate_catalog_quality (ready r)).allowed ≡ true
unfolding evaluate_catalog_quality quality_of catalog_bundle_publication_issue
evaluate_catalog_quality-allowed r issues e passed =
    let (single, clear, _) = (readiness_iff (ready r)).0 passed in
    let listed = subst (All (λ issue. ¬ IsBlocking issue)) (ap issues_of e) clear in
    rw (e, single, no_blockers issues listed) refl
