-- ===== src/Domain.antt =====
-- app/domain.py and app/risk/scoring.py: findings, their fingerprint, and their risk score.
-- `digest` is SHA-256 with its hexadecimal print.
pub mod Fingerprint
pub mod Risk
pub mod Tests
use api_scanner.Common.{ℕ, take, Option, none, some, List, [], ◌∷◌}
use api_scanner.Common.Text.{Text, codes, rstrip, lower, upper, join}
use api_scanner.Json.{Json}

pub data Severity : Type 0 where
  info low medium high critical : Severity

pub data Confidence : Type 0 where
  low medium high : Confidence

pub data FindingType : Type 0 where
  specification runtime discovery authorization : FindingType

pub record EvidenceDraft : Type 0 where
  pub engine : Text
  pub request : Option Json
  pub response : Option Json
  pub detail : Option Text

pub record FindingDraft : Type 0 where
  pub finding_type : FindingType
  pub title : Text
  pub description : Text
  pub category : Text
  pub severity : Severity
  pub confidence : Confidence
  pub endpoint : Option Text
  pub method : Option Text
  pub parameter : Option Text
  pub owasp_api : Option Text
  pub cwe : Option Text
  pub source_engine : Text
  pub impact : Text
  pub remediation : Text
  pub references : List Text
  pub evidence : List EvidenceDraft
  pub external_id : Option Text
  pub raw : Json

-- value or ""
abbrev pub or_empty : Option Text → Text
or_empty none = []
or_empty (some s) = s

-- The four texts that the fingerprint joins.
unfoldable pub endpoint_key : FindingDraft → Text
endpoint_key f = lower (rstrip b'/' (or_empty f.endpoint))

unfoldable pub method_key : FindingDraft → Text
method_key f = upper (or_empty f.method)

unfoldable pub parameter_key : FindingDraft → Text
parameter_key f = lower (or_empty f.parameter)

unfoldable pub category_key : FindingDraft → Text
category_key f = lower f.category

-- FindingDraft.fingerprint
unfoldable pub fingerprint : (Text → Text) → FindingDraft → Text
fingerprint digest f =
    digest
      (join (codes "|") (endpoint_key f ∷ method_key f ∷ parameter_key f ∷ category_key f ∷ []))

-- EndpointDefinition.build_id
unfoldable pub build_id : (Text → Text) → Text → Text → Text → Text
build_id digest base_url path method =
    take 32 (digest (join (codes "|") (rstrip b'/' base_url ∷ path ∷ upper method ∷ [])))

-- SEVERITY_RANK and CONFIDENCE_RANK of app/correlation/service.py
unfoldable pub severity_rank : Severity → ℕ
severity_rank info = 0
severity_rank low = 1
severity_rank medium = 2
severity_rank high = 3
severity_rank critical = 4

unfoldable pub confidence_rank : Confidence → ℕ
confidence_rank low = 0
confidence_rank medium = 1
confidence_rank high = 2
