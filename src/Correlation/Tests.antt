-- ===== src/Correlation/Tests.antt =====
-- Runs of the correlation.
use api_scanner.Common.{◌≡◌, refl, List, [], ◌∷◌, Memᴰ, All, map, collect}
use api_scanner.Common.Text.{Text, codes}
use api_scanner.Common.Sorting.{IsSorted}
use api_scanner.Common.Keyed.{IsUnique}
use api_scanner.Domain.{FindingDraft, Severity, Confidence, fingerprint}
use api_scanner.Domain.Tests.{finding_on}
use api_scanner.Correlation.{CorrelatedFinding, severe_first, correlate_findings}
use api_scanner.Correlation.Merge.{Represents}
use api_scanner.Correlation.Laws.{
  IsSupported, correlate_findings-IsUnique, correlate_findings-Represents,
  correlate_findings-IsSupported,
}

abbrev low_a : FindingDraft
low_a = finding_on (codes "/A/") Severity.low Confidence.low

abbrev high_a : FindingDraft
high_a = finding_on (codes "/a") Severity.high Confidence.low

abbrev info_b : FindingDraft
info_b = finding_on (codes "/b") Severity.info Confidence.high

abbrev three : List FindingDraft
three = low_a ∷ info_b ∷ high_a ∷ []

correlate_findings-IsUnique_example :
    IsUnique (map (λ c. fingerprint (λ t. t) c.finding) (correlate_findings (λ t. t) three))
correlate_findings-IsUnique_example = correlate_findings-IsUnique (λ t. t) three

-- The two findings on /a make one.
merged :
    map (λ c. c.finding.severity) (correlate_findings (λ t. t) three)
    ≡ Severity.high ∷ Severity.info ∷ []
unfolding correlate_findings api_scanner.Common.Sorting.sort_by api_scanner.Common.Text.text_eq
    fingerprint api_scanner.Common.Text.join api_scanner.Domain.endpoint_key
    api_scanner.Common.Text.lower api_scanner.Common.Text.rstrip api_scanner.Domain.method_key
    api_scanner.Common.Text.upper api_scanner.Domain.parameter_key api_scanner.Domain.category_key
    api_scanner.Domain.severity_rank
merged = refl

correlate_findings-Represents_example : ∥ (
    (c : CorrelatedFinding) × Memᴰ c (correlate_findings (λ t. t) three)
    × Represents (λ t. t) low_a c) ∥₁
correlate_findings-Represents_example =
    correlate_findings-Represents (λ t. t) three low_a ∣ Memᴰ.head refl ∣₁

correlate_findings-IsSupported_example :
    All (IsSupported three) (correlate_findings (λ t. t) three)
    × IsSorted severe_first (correlate_findings (λ t. t) three)
correlate_findings-IsSupported_example = correlate_findings-IsSupported (λ t. t) three
