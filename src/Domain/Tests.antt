-- ===== src/Domain/Tests.antt =====
-- Runs of the fingerprint and of the risk score.
use api_scanner.Common.{◌≡◌, ◌↔◌, ◌≤◌, none, some, [], arith}
use api_scanner.Common.Text.{Text, codes, lower, rstrip, upper}
use api_scanner.Json.{Json}
use api_scanner.Domain.{
  FindingDraft, FindingType, Severity, Confidence, fingerprint, severity_rank, confidence_rank,
  endpoint_key, method_key, parameter_key,
}
use api_scanner.Domain.Fingerprint.{SameKey, fingerprint-eq_iff, HasPlainKey}
use api_scanner.Domain.Risk.{calculate_risk, calculate_risk_mono}

abbrev pub finding_on : Text → Severity → Confidence → FindingDraft
finding_on endpoint s c = record {
  finding_type = FindingType.runtime;
  title = codes "t";
  description = [];
  category = codes "Auth";
  severity = s;
  confidence = c;
  endpoint = some endpoint;
  method = some (codes "get");
  parameter = none;
  owasp_api = none;
  cwe = none;
  source_engine = codes "zap";
  impact = [];
  remediation = [];
  references = [];
  evidence = [];
  external_id = none;
  raw = Json.null;
}

abbrev on_a : FindingDraft
on_a = finding_on (codes "/A/") Severity.low Confidence.low

abbrev on_b : FindingDraft
on_b = finding_on (codes "/a") Severity.high Confidence.low

plain_a : HasPlainKey on_a
unfolding endpoint_key method_key parameter_key lower rstrip upper
plain_a = record { endpoint = omega arith; method = omega arith; parameter = tt }

plain_b : HasPlainKey on_b
unfolding endpoint_key method_key parameter_key lower rstrip upper
plain_b = record { endpoint = omega arith; method = omega arith; parameter = tt }

fingerprint-eq_iff_example :
    (fingerprint (λ t. t) on_a ≡ fingerprint (λ t. t) on_b) ↔ SameKey on_a on_b
fingerprint-eq_iff_example = fingerprint-eq_iff (λ t. t) on_a on_b (λ a b e. e) plain_a plain_b

low_below_high : severity_rank Severity.low ≤ severity_rank Severity.high
unfolding severity_rank
low_below_high = omega arith

medium_below_high : confidence_rank Confidence.medium ≤ confidence_rank Confidence.high
unfolding confidence_rank
medium_below_high = omega arith

calculate_risk_mono_example :
    calculate_risk Severity.low Confidence.medium ≤ calculate_risk Severity.high Confidence.high
calculate_risk_mono_example =
    calculate_risk_mono Severity.low Severity.high Confidence.medium Confidence.high low_below_high
      medium_below_high
