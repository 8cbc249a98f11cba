-- ===== src/SellAction/Quality.antt =====
-- The preflight on the quality of a product: what Catalog's readiness says, before anything is
-- written.
use bazos.Base.{
  Option, none, some, List, [], ◌∷◌, ◌++◌, map, Bool, true, false, not, ◌&&◌, ◌||◌, ◌==◌, string_eq,
  if◌then◌else◌, String, select,
}
use bazos.Policy.Input.{CatalogReply, ready, catalog_error, Readiness, ReadinessIssue}
use bazos.Policy.Sources.{is_catalog_bundle_readiness}

-- An issue as it is described: without its field, message and source.
pub record QualityIssue : Type 0 where
  pub code : String
  pub severity : String

pub record CatalogQuality : Type 0 where
  pub allowed : Bool
  pub blocking_issues : List QualityIssue
  pub optional_opportunities : List QualityIssue
  pub publishable : Option Bool
  pub unavailable : Bool

-- `value || default`
abbrev pub or_text : Option String → String → String
or_text none default = default
or_text (some s) default = if s == "" then default else s

unfoldable pub describe_catalog_quality_issue : ReadinessIssue → QualityIssue
describe_catalog_quality_issue issue = record {
  code = or_text issue.code "unknown_catalog_quality_issue";
  severity = or_text issue.severity "warning";
}

-- `draft_product` and `inactive_product` say nothing about the quality.
abbrev is_lifecycle_code : String → Bool
is_lifecycle_code code = code == "draft_product" || code == "inactive_product"

unfoldable pub is_catalog_quality_blocker : QualityIssue → Bool
is_catalog_quality_blocker issue =
    issue.severity == "blocking" && not (is_lifecycle_code issue.code)

abbrev bundle_issue : QualityIssue
bundle_issue = record {
  code = "bazos_catalog_bundle_external_listing_blocked";
  severity = "blocking";
}

unfoldable pub catalog_bundle_publication_issue : Readiness → List QualityIssue
unfolding is_catalog_bundle_readiness
catalog_bundle_publication_issue r = if is_catalog_bundle_readiness r then bundle_issue ∷ [] else []

unfoldable pub catalog_quality_unavailable : CatalogQuality
catalog_quality_unavailable = record {
  allowed = false;
  blocking_issues = record { code = "catalog_quality_unavailable"; severity = "blocking" } ∷ [];
  optional_opportunities = [];
  publishable = some false;
  unavailable = true;
}

abbrev pub lists_none : List QualityIssue → Bool
lists_none [] = true
lists_none (i ∷ is) = false

unfoldable pub quality_of : Readiness → List QualityIssue → CatalogQuality
unfolding is_catalog_quality_blocker select
quality_of r issues =
    let blocking = select is_catalog_quality_blocker issues in
    record {
      allowed = lists_none blocking;
      blocking_issues = blocking;
      optional_opportunities = select (λ i. not (is_catalog_quality_blocker i)) issues;
      publishable = r.publishable;
      unavailable = false;
    }

abbrev pub quality_with : Readiness → Option (List ReadinessIssue) → CatalogQuality
quality_with r none = catalog_quality_unavailable
quality_with r (some issues) =
    quality_of r (map describe_catalog_quality_issue issues ++ catalog_bundle_publication_issue r)

unfoldable pub evaluate_catalog_quality : CatalogReply → CatalogQuality
unfolding quality_of catalog_quality_unavailable describe_catalog_quality_issue
    catalog_bundle_publication_issue
evaluate_catalog_quality catalog_error = catalog_quality_unavailable
evaluate_catalog_quality (ready r) = quality_with r r.issues
