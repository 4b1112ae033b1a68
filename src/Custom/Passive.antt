-- ===== src/Custom/Passive.antt =====
-- `_test_endpoint` up to the active tests.
use api_scanner.Common.{
  ℕ, zero, suc, Bool, true, false, not, ◌&&◌, none, some, List, [], ◌∷◌, ◌++◌, map, select, ltb,
  take, if◌then◌else◌, is_empty,
}
use api_scanner.Common.Text.{Text, codes, text_eq, lower, rstrip, lstrip, starts_with}
use api_scanner.Common.Sorting.{is_in}
use api_scanner.Json.{Json, null, bool, number, str, arr, obj, Items, nil, cons, Fields, end, field}
use api_scanner.Scope.{Response}
use api_scanner.Domain.{Severity, Confidence}
use api_scanner.Coverage.{CheckStatus}
use api_scanner.Custom.{Endpoint, no_auth, Context, PreparedRequest, Failure, above, at_least, Web}
use api_scanner.Custom.Session.{Exec, ◌>>=◌, pure, raising, attempt, put, send_prepared}
use api_scanner.Custom.Requests.{build_prepared_request}
use api_scanner.Custom.Evidence.{header, names, response_similarity}
use api_scanner.Custom.Checks.{
  CheckRecord, check, Tested, join_tested, one_check, detected_or_tested, PassiveCheck,
  security_headers, excessive_data_exposure, cors_misconfiguration, missing_authentication,
  ActiveCheck, passive_checks, active_checks, passive_name, active_name,
  passive_not_applicable_reason, active_not_applicable_reason, active_techniques, is_retrieval,
  Issue, issue, finding, active_candidates, request_failure,
}

abbrev sensitive_names : List Text
sensitive_names =
    codes "password"
    ∷ codes "passwd"
    ∷ codes "secret"
    ∷ codes "ssn"
    ∷ codes "access_token"
    ∷ codes "api_key"
    ∷ []

-- f"{prefix}.{key}".strip(".")
abbrev dotted : Text → Text → Text
dotted prefix k = lstrip b'.' (rstrip b'.' (prefix ++ (codes "." ++ k)))

module _ (w : Web) where
  -- sensitive_paths; of a list the first twenty items are read.
  unfoldable mutual
    pub sensitive_paths : Text → Json → List Text
    sensitive_paths prefix (obj fields) = field_paths prefix fields
    sensitive_paths prefix (arr items) = item_paths prefix 0 20 items
    sensitive_paths prefix null = []
    sensitive_paths prefix (bool b) = []
    sensitive_paths prefix (number n) = []
    sensitive_paths prefix (str t) = []

    pub field_paths : Text → Fields → List Text
    field_paths prefix end = []
    field_paths prefix (field k v fields) =
        (if is_in (lower k) sensitive_names then dotted prefix k ∷ [] else [])
        ++ (sensitive_paths (dotted prefix k) v ++ field_paths prefix fields)

    pub item_paths : Text → ℕ → ℕ → Items → List Text
    item_paths prefix at zero items = []
    item_paths prefix at (suc left) nil = []
    item_paths prefix at (suc left) (cons v items) =
        sensitive_paths (prefix ++ (codes "[" ++ (w.digits at ++ codes "]"))) v
        ++ item_paths prefix (suc at) left items

module _ (w : Web) (context : Context) (e : Endpoint) where
  abbrev found_if : Bool → Issue → Text → ℕ → List Text → Tested
  found_if found i name requests techniques = record {
    findings = if found then finding w context e i ∷ [] else [];
    checks = check e name (detected_or_tested found) [] requests none techniques ∷ [];
  }

  unfoldable pub test_transport : Text → Tested
  test_transport url =
      found_if (starts_with (codes "http://") (lower url))
        (record (issue (codes "Cleartext HTTP API endpoint") (codes "insecure-transport")
          Severity.high Confidence.high
          (codes "Credentials and API data can be observed or modified in transit.")
          (codes "Require HTTPS and redirect HTTP only at a trusted edge.")) {
            cwe = some (codes "CWE-319");
          })
        (codes "insecure-transport") 0 (codes "URL scheme inspection" ∷ [])

  abbrev pub passive_applicability : PassiveCheck → Bool
  passive_applicability missing_authentication = e.auth_required
  passive_applicability _ = is_retrieval e.method

  abbrev pub skipped_if : Bool → CheckStatus
  skipped_if applicable = if applicable then CheckStatus.skipped else CheckStatus.not_applicable

  abbrev pub passive_skipped : Text → PassiveCheck → CheckRecord
  passive_skipped reason c =
      check e (passive_name c) (skipped_if (passive_applicability c)) [] 0
        (some (if passive_applicability c then reason else passive_not_applicable_reason c)) []

  abbrev pub active_skipped : Text → ActiveCheck → CheckRecord
  active_skipped reason c =
      let points = active_candidates w e c in
      check e (active_name c) (skipped_if (not (is_empty points))) points 0
        (some (if is_empty points then active_not_applicable_reason c else reason))
        (active_techniques c)

  -- The `except` of the baseline request.
  unfoldable pub baseline_failed : Failure → Tested
  baseline_failed f =
      let reason = request_failure (codes "baseline request failed") f in
      record {
        findings = [];
        checks =
            check e (codes "baseline") CheckStatus.error [] 0 (some reason) []
            ∷ (map (passive_skipped reason) passive_checks
                ++ map (active_skipped reason) active_checks);
      }

  -- The security headers that the response lacks.
  abbrev missing_headers : Response → List Text
  missing_headers r =
      select (λ name. elim (header name r.headers) [ none ↦ true | some v ↦ false ])
        (codes "x-content-type-options" ∷ codes "content-security-policy" ∷ [])

  unfoldable pub test_headers : Response → Tested
  test_headers r =
      found_if (not (is_empty (missing_headers r)))
        (record (issue (codes "Missing HTTP security headers") (codes "security-headers")
          Severity.low Confidence.high
          (codes
            "Missing defense-in-depth headers can increase the effect of browser-facing flaws.")
          (codes "Set appropriate response security headers at the API gateway or application.")) {
            detail = obj (field (codes "missing") (names (missing_headers r)) end);
          })
        (codes "security-headers") 0 (codes "response-header inspection" ∷ [])

  abbrev exposed_paths : Response → List Text
  exposed_paths r = elim (w.load_json (w.text r)) [ none ↦ [] | some v ↦ sensitive_paths w [] v ]

  unfoldable pub test_exposure : Response → Tested
  unfolding sensitive_paths
  test_exposure r =
      found_if (not (is_empty (exposed_paths r)))
        (record (issue (codes "Potential excessive data exposure") (codes "excessive-data-exposure")
          Severity.medium Confidence.medium
          (codes
            "Sensitive fields in a general API response may disclose personal or credential data.")
          (codes
            "Return an allowlisted response DTO containing only fields required by the caller.")) {
              owasp = some (codes "API3:2023 Broken Object Property Level Authorization");
              cwe = some (codes "CWE-200");
              response = some r;
              detail =
                  obj
                    (field (codes "sensitive_field_paths") (names (take 20 (exposed_paths r))) end);
            })
        (codes "excessive-data-exposure") 0 (codes "sensitive response-field inspection" ∷ [])

  abbrev header_is : Text → Text → Response → Bool
  header_is name value r = elim (header name r.headers) [ none ↦ false | some v ↦ text_eq v value ]

  abbrev lower_header_is : Text → Text → Response → Bool
  lower_header_is name value r = elim (header name r.headers) [
    | none ↦ false
    | some v ↦ text_eq (lower v) value
  ]

  unfoldable pub judge_cors : Response → Tested
  judge_cors r =
      found_if
        (header_is (codes "access-control-allow-origin") (codes "*") r
          && lower_header_is (codes "access-control-allow-credentials") (codes "true") r)
        (record (issue (codes "Credentialed wildcard CORS policy") (codes "cors-misconfiguration")
          Severity.high Confidence.high
          (codes "A browser may expose authenticated responses to an untrusted origin.")
          (codes
            "Use an explicit origin allowlist and never combine wildcard origin with credentials.")) {
              cwe = some (codes "CWE-942");
              response = some r;
            })
        (codes "cors-misconfiguration") 1 (codes "untrusted Origin response comparison" ∷ [])

  -- A check that an exception ended: f"{prefix}: {type(exc).__name__}"
  abbrev pub error_check : Text → Text → Failure → Tested
  error_check name prefix f =
      one_check (check e name CheckStatus.error [] 0 (some (prefix ++ (codes ": " ++ f.kind))) [])

  unfoldable pub test_cors : Exec Tested
  unfolding judge_cors
  test_cors =
      attempt
        (raising (build_prepared_request w e none) >>= λ prepared.
          (send_prepared w context context.auth e.method (record prepared {
            headers = put (codes "Origin") (codes "https://untrusted.invalid") prepared.headers;
          })
            >>= λ r. pure (judge_cors r)))
        (λ f. pure (error_check (codes "cors-misconfiguration") (codes "CORS probe failed") f))

  abbrev pub retrieval_only : PassiveCheck → Tested
  retrieval_only c = one_check (
      check e (passive_name c) CheckStatus.not_applicable [] 0
        (some (codes "check is limited to retrieval operations")) [])

  unfoldable pub test_retrieval : Response → Exec Tested
  unfolding test_headers test_exposure test_cors
  test_retrieval baseline =
      if is_retrieval e.method
      then (test_cors >>= λ cors.
          pure (join_tested (test_headers baseline) (join_tested (test_exposure baseline) cors)))
      else pure (
          join_tested (retrieval_only security_headers) (
            join_tested (retrieval_only excessive_data_exposure)
              (retrieval_only cors_misconfiguration)))

  unfoldable pub judge_missing_auth : Response → Response → Tested
  judge_missing_auth baseline r =
      let similarity = response_similarity w (w.text baseline) (w.text r) in
      found_if (ltb r.status 300 && at_least 70 similarity)
        (record (issue (codes "Operation accessible without declared authentication")
          (codes "missing-authentication") Severity.high
          (if above 90 similarity then Confidence.high else Confidence.medium)
          (codes "Unauthenticated callers may access functionality documented as protected.")
          (codes "Enforce authentication server-side for this operation.")) {
            cwe = some (codes "CWE-306");
            owasp = some (codes "API2:2023 Broken Authentication");
            response = some r;
            detail =
                obj (field (codes "authenticated_similarity") (number (w.round similarity)) end);
          })
        (codes "missing-authentication") 1
        (codes "authenticated/unauthenticated response comparison" ∷ [])

  unfoldable pub test_missing_auth : PreparedRequest → Response → Exec Tested
  unfolding judge_missing_auth
  test_missing_auth prepared baseline =
      if e.auth_required
      then attempt
          (send_prepared w context no_auth e.method prepared >>= λ r.
            pure (judge_missing_auth baseline r))
          (λ f.
            pure (
              error_check (codes "missing-authentication") (codes "unauthenticated probe failed")
                f))
      else pure (
          one_check (
            check e (codes "missing-authentication") CheckStatus.not_applicable [] 0
              (some (codes "operation is not documented as requiring authentication")) []))
