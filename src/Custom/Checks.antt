-- ===== src/Custom/Checks.antt =====
-- The records of the engine: `_check`, `_finding`, and the tables of its checks.
mod Catalogue
pub use api_scanner.Custom.Checks.Catalogue.{
  PassiveCheck, security_headers, excessive_data_exposure, cors_misconfiguration,
  missing_authentication, ActiveCheck, sql_injection, nosql_injection, path_traversal,
  reflected_xss, open_redirect, command_injection, ssrf, passive_checks, active_checks,
  passive_name, active_name, passive_not_applicable_reason, active_not_applicable_reason,
  active_techniques,
}
use api_scanner.Common.{
  inl, inr, ℕ, Bool, true, not, ◌||◌, ◌&&◌, Option, none, some, List, [], ◌∷◌, ◌++◌, map, select,
  take, leb, ◌==◌, if◌then◌else◌, is_empty,
}
use api_scanner.Common.Text.{is_blank, Text, codes, text_eq, join}
use api_scanner.Common.Sorting.{is_in}
use api_scanner.Json.{Json, number, str, obj, Fields, end, field}
use api_scanner.Scope.{Response}
use api_scanner.Domain.{FindingDraft, FindingType, Severity, Confidence}
use api_scanner.Coverage.{Check, CheckStatus}
use api_scanner.Redaction.{redact, redact_known}
use api_scanner.Custom.{
  Endpoint, Auth, no_auth, bearer, basic, api_key_query, api_key_header, unsupported, Context,
  MutationPoint, Failure, Web,
}
use api_scanner.Custom.Schema.{put_field}
use api_scanner.Custom.Points.{eligible_points, query_location, body_location}
use api_scanner.Custom.Requests.{endpoint_url}
use api_scanner.Custom.Evidence.{point_matches, path_hint, url_hint, command_hint}

-- str.split(), with the word so far
unfoldable pub words : Text → Text → List Text
words word [] = if is_empty word then [] else word ∷ []
words word (c ∷ s) =
    let ended = words [] s in
    let longer = words (word ++ c ∷ []) s in
    if not (is_blank c) then longer else if is_empty word then ended else word ∷ ended

-- CustomApiEngine._request_failure
unfoldable pub request_failure : Text → Failure → Text
unfolding words
request_failure prefix f =
    let detail = take 240 (join (codes " ") (words [] f.detail)) in
    prefix ++ (codes ": " ++ (f.kind ++ (if is_empty detail then [] else codes ": " ++ detail)))

-- What `_check` returns: the row that the coverage reads, and the rest.
pub record CheckRecord : Type 0 where
  pub row : Check
  pub endpoint : Text
  pub method : Text
  pub eligible_parameters : List Text
  pub techniques : List Text

-- MutationPoint.label
abbrev pub label : MutationPoint → Text
label p = p.name ++ (codes " (" ++ (p.location ++ codes ")"))

unfoldable pub check :
    Endpoint → Text → CheckStatus → List MutationPoint → ℕ → Option Text → List Text → CheckRecord
check e name status points requests reason techniques = record {
  row = record {
    endpoint_id = e.endpoint_id;
    check = some name;
    status = status;
    request_count = requests;
    reason = reason;
  };
  endpoint = e.path;
  method = e.method;
  eligible_parameters = map label points;
  techniques = techniques;
}

-- The two lists that the tests of an endpoint return.
pub record Tested : Type 0 where
  pub findings : List FindingDraft
  pub checks : List CheckRecord

abbrev pub join_tested : Tested → Tested → Tested
join_tested a b = record { findings = a.findings ++ b.findings; checks = a.checks ++ b.checks }

abbrev pub joined : List Tested → Tested
joined [] = record { findings = []; checks = [] }
joined (t ∷ ts) = join_tested t (joined ts)

abbrev pub one_check : CheckRecord → Tested
one_check c = record { findings = []; checks = c ∷ [] }

abbrev pub detected_or_tested : Bool → CheckStatus
detected_or_tested found = if found then CheckStatus.detected else CheckStatus.tested

-- method in {"GET", "HEAD", "OPTIONS"}
abbrev pub is_retrieval : Text → Bool
is_retrieval method = is_in method (codes "GET" ∷ codes "HEAD" ∷ codes "OPTIONS" ∷ [])

-- point.location in {"query", "body"}
abbrev pub in_query_or_body : MutationPoint → Bool
in_query_or_body p = text_eq p.location query_location || text_eq p.location body_location

-- point.schema_type not in {"boolean", "object", "array"}
abbrev pub is_scalar_point : MutationPoint → Bool
is_scalar_point p =
    not (is_in p.schema_type (codes "boolean" ∷ codes "object" ∷ codes "array" ∷ []))

-- What one call of `_finding` is given.
pub record Issue : Type 0 where
  pub title : Text
  pub category : Text
  pub severity : Severity
  pub confidence : Confidence
  pub impact : Text
  pub remediation : Text
  pub parameter : Option Text
  pub cwe : Option Text
  pub owasp : Option Text
  pub response : Option Response
  pub detail : Json
  pub finding_type : FindingType
  pub evidence_request : Option Json

abbrev pub issue : Text → Text → Severity → Confidence → Text → Text → Issue
issue title category severity confidence impact remediation = record {
  title = title;
  category = category;
  severity = severity;
  confidence = confidence;
  impact = impact;
  remediation = remediation;
  parameter = none;
  cwe = none;
  owasp = none;
  response = none;
  detail = obj end;
  finding_type = FindingType.runtime;
  evidence_request = none;
}

abbrev pub redacted_headers : Json
redacted_headers = str (codes "[REDACTED]")

-- auth["token"], auth["key"], auth["password"], as far as there are
abbrev secrets_of : Auth → List Text
secrets_of no_auth = []
secrets_of (bearer token) = token ∷ []
secrets_of (basic username password) = password ∷ []
secrets_of (api_key_query name key) = key ∷ []
secrets_of (api_key_header name key) = key ∷ []
secrets_of (unsupported kind) = []

-- dict(response.headers)
abbrev header_fields : List (Text × Text) → Fields
header_fields [] = end
header_fields ((n, v) ∷ fields) = field n (str v) (header_fields fields)

module _ (w : Web) where
  -- safe_evidence_response of app/security/scope.py
  unfoldable pub safe_evidence_response : Response → Json
  safe_evidence_response r = obj (
      field (codes "status_code") (number (w.digits r.status)) (
        field (codes "headers") (redact w.mask [] (obj (header_fields r.headers)))
          (field (codes "body") (redact w.mask [] (str (take 4096 (w.text r)))) end)))

  abbrev response_evidence : Auth → Option Response → Option Json
  response_evidence auth none = none
  response_evidence auth (some r) =
      some (redact_known w.mask (secrets_of auth) (safe_evidence_response r))

  abbrev request_evidence : Endpoint → Option Json → Fields
  request_evidence e (some (obj (field k v fields))) = field k v fields
  request_evidence e _ =
      field (codes "url") (str (endpoint_url w e none))
        (field (codes "headers") redacted_headers end)

  -- CustomApiEngine._finding
  unfoldable pub finding : Context → Endpoint → Issue → FindingDraft
  unfolding safe_evidence_response
  finding context e i = record {
    finding_type = i.finding_type;
    title = i.title;
    description = i.title ++ codes " was observed during controlled runtime testing.";
    category = i.category;
    severity = i.severity;
    confidence = i.confidence;
    endpoint = some e.path;
    method = some e.method;
    parameter = i.parameter;
    owasp_api = i.owasp;
    cwe = i.cwe;
    source_engine = codes "custom";
    impact = i.impact;
    remediation = i.remediation;
    references = [];
    evidence =
        record {
          engine = codes "custom";
          request = some (
              redact_known w.mask (secrets_of context.auth) (
                obj (
                  put_field (codes "method") (str e.method)
                    (request_evidence e i.evidence_request))));
          response = response_evidence context.auth i.response;
          detail = some (w.dump_json (redact w.mask [] i.detail));
        }
        ∷ [];
    external_id = none;
    raw = obj end;
  }

  -- An endpoint is asked for its points once its request is built, so that its schemas raise no
  -- exception here.
  abbrev pub scalar_points : Endpoint → List MutationPoint
  scalar_points e = elim (eligible_points w e) [
    | inl f ↦ []
    | inr points ↦ select is_scalar_point points
  ]

  -- Whether a scalar point is a candidate of the check.
  abbrev pub is_candidate : Endpoint → ActiveCheck → MutationPoint → Bool
  is_candidate e sql_injection p = true
  is_candidate e nosql_injection p = in_query_or_body p
  is_candidate e path_traversal p = point_matches w p path_hint e
  is_candidate e reflected_xss p = true
  is_candidate e open_redirect p = point_matches w p url_hint e
  is_candidate e command_injection p = point_matches w p command_hint e
  is_candidate e ssrf p = point_matches w p url_hint e

  -- _active_candidates(endpoint)[name]
  unfoldable pub active_candidates : Endpoint → ActiveCheck → List MutationPoint
  unfolding eligible_points
  active_candidates e c = select (is_candidate e c) (scalar_points e)
