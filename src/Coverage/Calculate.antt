-- ===== src/Coverage/Calculate.antt =====
-- `calculate_coverage`: the whole dictionary, without its fixed explanatory text.
use api_scanner.Common.{
  ℕ, ◌+◌, ◌-◌, Bool, true, false, not, ◌&&◌, ◌||◌, Option, List, [], ◌∷◌, ◌==◌, if◌then◌else◌,
  length, tally, any, collect,
}
use api_scanner.Common.Text.{Text, codes, text_eq, starts_with}
use api_scanner.Coverage.{
  Endpoint, Check, ScanEngine, EngineStatus, CheckCoverage, CheckSummary, AssessmentStatus,
  complete, is_completed, add_count, count_all, truthy_text, is_offline, is_runtime, field_of,
  check_matrix, tested_count, skipped_count, defined_count, security_checks, check_summary,
  assessment_status,
}

pub record Assessment : Type 0 where
  pub status : AssessmentStatus
  pub is_complete : Bool
  pub endpoint_reachability_complete : Bool
  pub runtime_check_coverage_complete : Bool
  pub blocking_reasons : List (Text × ℕ)

pub record EndpointCoverage : Type 0 where
  pub total : ℕ
  pub defined : ℕ
  pub discovered : ℕ
  pub reached : ℕ
  pub skipped : ℕ
  pub not_tested : ℕ
  pub percent_tested : ℕ
  pub skip_reasons : List (Text × ℕ)

pub record EngineCoverage : Type 0 where
  pub status : EngineStatus
  pub request_count : ℕ
  pub reason : Option Text

pub record Coverage : Type 0 where
  pub assessment : Assessment
  pub endpoints : EndpointCoverage
  pub required_auth_endpoints : ℕ
  pub tested_auth_endpoints : ℕ
  pub authentication_tested : Bool
  pub identities_configured : ℕ
  pub authorization_eligible : ℕ
  pub authorization_attempted : ℕ
  pub authorization_tested : Bool
  pub fuzzing_tested : Bool
  pub runtime_check_summary : CheckSummary
  pub offline_check_summary : CheckSummary
  pub all_security_check_summary : CheckSummary
  pub security_checks : List (Text × CheckCoverage)
  pub endpoint_check_matrix : List Check
  pub engines : List (Text × EngineCoverage)

-- blocking_reasons[reason] += count, but for failed baselines
unfoldable pub add_reasons : List (Text × ℕ) → List (Text × ℕ) → List (Text × ℕ)
add_reasons counts [] = counts
add_reasons counts ((reason, n) ∷ rest) =
    add_reasons
      (if starts_with (codes "baseline request failed") reason
        then counts
        else add_count reason n counts)
      rest

-- The loop over the runtime checks. A set has no order of its own: the model takes the checks'.
unfoldable pub block_reasons : List (Text × ℕ) → List (Text × CheckCoverage) → List (Text × ℕ)
unfolding add_reasons
block_reasons counts [] = counts
block_reasons counts ((name, c) ∷ checks) =
    block_reasons (if is_runtime name then add_reasons counts c.skip_reasons else counts) checks

-- The dict of the engines: a later row of the same name takes the earlier one's place.
unfoldable pub put_engine :
    Text → EngineCoverage → List (Text × EngineCoverage) → List (Text × EngineCoverage)
put_engine name e [] = (name, e) ∷ []
put_engine name e ((k, d) ∷ rest) =
    let others = put_engine name e rest in if text_eq name k then (k, e) ∷ rest else (k, d) ∷ others

unfoldable pub engine_coverage :
    List (Text × EngineCoverage) → List ScanEngine → List (Text × EngineCoverage)
unfolding put_engine
engine_coverage done [] = done
engine_coverage done (e ∷ es) =
    engine_coverage
      (put_engine e.name
        (record { status = e.status; request_count = e.request_count; reason = e.reason }) done)
      es

abbrev pub is_fuzzer : Text → Bool
is_fuzzer name = text_eq name (codes "wfuzz") || text_eq name (codes "wuppiefuzz")

abbrev pub is_whole : AssessmentStatus → Bool
is_whole complete = true
is_whole _ = false

module _ (percent : ℕ → ℕ → ℕ) (endpoints : List Endpoint) (engines : List ScanEngine) where
  -- The sets of names, and the checks they are taken of.
  abbrev pub checks : List (Text × CheckCoverage)
  checks = security_checks percent (check_matrix engines)

  abbrev pub runtime_summary : CheckSummary
  runtime_summary = check_summary percent checks is_runtime

  unfoldable pub status_of : AssessmentStatus
  status_of =
      assessment_status (length endpoints) (tested_count endpoints)
        runtime_summary.skipped_or_error_endpoint_checks

  unfoldable pub assessment : Assessment
  unfolding status_of block_reasons count_all
  assessment =
      let total = length endpoints in
      let reasons =
        count_all [] (collect (λ (e : Endpoint). truthy_text e.skip_reason) endpoints) in
      record {
        status = status_of;
        is_complete = is_whole status_of;
        endpoint_reachability_complete = not (total == 0) && tested_count endpoints == total;
        runtime_check_coverage_complete = runtime_summary.skipped_or_error_endpoint_checks == 0;
        blocking_reasons = block_reasons reasons checks;
      }

  unfoldable pub endpoint_coverage : EndpointCoverage
  unfolding count_all
  endpoint_coverage =
      let total = length endpoints in
      record {
        total = total;
        defined = defined_count endpoints;
        discovered = total - defined_count endpoints;
        reached = tested_count endpoints;
        skipped = skipped_count endpoints;
        not_tested = total - tested_count endpoints - skipped_count endpoints;
        percent_tested = if total == 0 then 0 else percent (tested_count endpoints) total;
        skip_reasons =
            count_all [] (collect (λ (e : Endpoint). truthy_text e.skip_reason) endpoints);
      }

  -- calculate_coverage
  unfoldable pub calculate_coverage : ℕ → Coverage
  unfolding assessment endpoint_coverage engine_coverage
  calculate_coverage identity_count =
      let required = tally (λ (e : Endpoint). e.auth_required) endpoints in
      let auth = field_of (λ c. c.attempted_endpoints) (codes "missing-authentication") checks in
      let of = λ (field : CheckCoverage → ℕ).
        field_of field (codes "bola") checks + field_of field (codes "bfla") checks in
      let eligible = of (λ c. c.eligible_endpoints) in
      let attempted = of (λ c. c.attempted_endpoints) in
      record {
        assessment = assessment;
        endpoints = endpoint_coverage;
        required_auth_endpoints = required;
        tested_auth_endpoints = auth;
        authentication_tested = required == 0 || auth == required;
        identities_configured = identity_count;
        authorization_eligible = eligible;
        authorization_attempted = attempted;
        authorization_tested = eligible == 0 || attempted == eligible;
        fuzzing_tested =
            any (λ (e : ScanEngine). is_fuzzer e.name && is_completed e.status) engines;
        runtime_check_summary = runtime_summary;
        offline_check_summary = check_summary percent checks is_offline;
        all_security_check_summary = check_summary percent checks (λ _. true);
        security_checks = checks;
        endpoint_check_matrix = check_matrix engines;
        engines = engine_coverage [] engines;
      }
