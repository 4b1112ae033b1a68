-- ===== src/Custom/Active.antt =====
-- `_input_validation_tests` of app/engines/custom.py.
use api_scanner.Common.{
  inr, ℕ, suc, Bool, true, false, not, Option, none, some, List, [], ◌∷◌, ◌++◌, map, select, any,
  take, if◌then◌else◌, is_empty, sum_by, ◌==◌,
}
use api_scanner.Common.Text.{Text, codes, text_eq, rstrip}
use api_scanner.Json.{Json, null, bool, str, obj, end, field}
use api_scanner.Scope.{Response}
use api_scanner.Domain.{FindingDraft}
use api_scanner.Coverage.{CheckStatus}
use api_scanner.Custom.{Endpoint, Context, MutationPoint, PreparedRequest, Web}
use api_scanner.Custom.Session.{Exec, ◌>>=◌, pure, raising, for_each, look, send_prepared}
use api_scanner.Custom.Points.{body_location}
use api_scanner.Custom.Requests.{build_prepared_request}
use api_scanner.Custom.Evidence.{
  sql_error_evidence, sql_boolean_evidence, nosql_injection_evidence, path_traversal_evidence,
  reflected_xss_evidence, open_redirect_evidence, command_execution_evidence,
}
use api_scanner.Custom.Checks.{
  CheckRecord, check, Tested, joined, detected_or_tested, ActiveCheck, sql_injection,
  nosql_injection, path_traversal, reflected_xss, open_redirect, command_injection, ssrf,
  active_checks, active_name, active_not_applicable_reason, active_techniques, is_candidate,
  active_candidates,
}
use api_scanner.Custom.Passive.{active_skipped}
use api_scanner.Custom.Payloads.{
  maximum_points, is_active, profile_text, sql_error_payloads, boolean_payloads, traversal_payloads,
  xss_payloads, callback_urls, command_payloads, active_issue, boolean_issue,
}
use api_scanner.Custom.Probe.{
  Outcome, outcome, or_empty, configured, oast_hit, register_oast, point_request, mutate,
  point_finding, probe,
}

module _ (w : Web) (context : Context) (e : Endpoint) where
  -- The two requests of the boolean test.
  unfoldable pub boolean_point : MutationPoint → ℕ → Exec Outcome
  unfolding mutate point_finding point_request
  boolean_point p sent =
      let payloads = boolean_payloads p.schema_type in
      mutate w context e p (str payloads.0) >>= λ m.
      (mutate w context e p (str payloads.1) >>= λ n.
      pure (elim (sql_boolean_evidence w m.1 n.1 payloads.0 payloads.1) [
        | none ↦ outcome (suc (suc sent)) []
        | some evidence ↦ outcome (suc (suc sent)) (
            point_finding w context e boolean_issue p m.1 evidence
              (point_request w context e p m.0 (str payloads.0))
            ∷ [])
      ]))

  unfoldable pub sql_point : Response → MutationPoint → Exec Outcome
  unfolding probe boolean_point
  sql_point baseline p =
      probe w context e (active_issue sql_injection) p 0
        (map (λ payload. (payload, λ r. inr (sql_error_evidence w baseline r))) sql_error_payloads)
      >>= λ o. if is_empty o.found then boolean_point p o.requests else pure o

  -- The query of the prepared request without the point, and with an operator on its name.
  abbrev operator_request : MutationPoint → Text → PreparedRequest → PreparedRequest
  operator_request p operator prepared = record prepared {
    params =
        select (λ item. not (text_eq item.0 p.name)) prepared.params
        ++ (p.name ++ operator, codes "API_SCANNER_NOSQL") ∷ [];
  }

  abbrev operator_value : Text → Json
  operator_value operator = obj (field operator null end)

  -- The request with the operator `name`, in the body or in the query.
  unfoldable pub operate : MutationPoint → Text → Exec (PreparedRequest × Response)
  unfolding mutate
  operate p name =
      if text_eq p.location body_location
      then mutate w context e p (operator_value name)
      else (raising (build_prepared_request w e none) >>= λ plain.
          (let prepared = operator_request p (codes "[" ++ (name ++ codes "]")) plain in
            send_prepared w context context.auth e.method prepared >>= λ r. pure (prepared, r)))

  unfoldable pub nosql_point : Response → MutationPoint → Exec Outcome
  unfolding operate point_finding point_request
  nosql_point baseline p = operate p (codes "$ne") >>= λ m.
      (operate p (codes "$scanner_control") >>= λ n.
      pure (elim (nosql_injection_evidence w baseline m.1 n.1) [
        | none ↦ outcome 2 []
        | some evidence ↦ outcome 2 (
            point_finding w context e (active_issue nosql_injection) p m.1 evidence
              (point_request w context e p m.0 (str (codes "controlled $ne operator")))
            ∷ [])
      ]))

  abbrev pub callback_evidence : Json
  callback_evidence = obj (
      field (codes "technique") (str (codes "out-of-band HTTP callback"))
        (field (codes "callback_observed") (bool true) end))

  abbrev pub collector_failed : ℕ → Outcome
  collector_failed requests = record (outcome requests []) { collector_error = true }

  abbrev pub callback_finding : MutationPoint → Text → PreparedRequest × Response → FindingDraft
  callback_finding p url m =
      point_finding w context e (active_issue ssrf) p m.1 callback_evidence
        (point_request w context e p m.0 (str url))

  -- What the answer of the collector says.
  abbrev pub judge_callback :
      MutationPoint → Text → PreparedRequest × Response → Option Bool → Outcome
  judge_callback p url m none = collector_failed 1
  judge_callback p url m (some false) = outcome 1 []
  judge_callback p url m (some true) = outcome 1 (callback_finding p url m ∷ [])

  abbrev pub callback_url : Text → Text
  callback_url token = rstrip b'/' (or_empty w.callback_base_url) ++ (codes "/" ++ token)

  -- The rest of the loop over the points of `ssrf`, once the token is registered.
  unfoldable pub callback_point : MutationPoint → Text → Exec Outcome
  unfolding mutate point_finding point_request oast_hit
  callback_point p token = mutate w context e p (str (callback_url token)) >>= λ m.
      (oast_hit w token >>= λ hit. pure (judge_callback p (callback_url token) m hit))

  unfoldable pub ssrf_point : MutationPoint → Exec Outcome
  unfolding callback_point register_oast
  ssrf_point p = look >>= λ now.
      (register_oast w (w.token now) >>= λ registered.
      if registered then callback_point p (w.token now) else pure (collector_failed 0))

  -- The body of each loop over the points of a check.
  unfoldable pub test_point : Response → ActiveCheck → MutationPoint → Exec Outcome
  unfolding sql_point nosql_point probe ssrf_point
  test_point baseline sql_injection p = sql_point baseline p
  test_point baseline nosql_injection p = nosql_point baseline p
  test_point baseline path_traversal p = probe w context e (active_issue path_traversal) p 0 (
      map (λ payload. (payload, λ r. inr (path_traversal_evidence w baseline r)))
        (traversal_payloads context.profile))
  test_point baseline reflected_xss p =
      probe w context e (active_issue reflected_xss) p 0
        (map (λ payload. (payload, λ r. inr (reflected_xss_evidence w payload r))) xss_payloads)
  test_point baseline open_redirect p =
      probe w context e (active_issue open_redirect) p 0
        (map (λ payload. (payload, open_redirect_evidence w payload)) callback_urls)
  test_point baseline command_injection p =
      probe w context e (active_issue command_injection) p 0
        (map (λ c. (c.0, λ r. inr (command_execution_evidence w c.0 c.1 r))) command_payloads)
  test_point baseline ssrf p = ssrf_point p

  -- The points of a check among those of the profile.
  abbrev pub tested_points : ActiveCheck → List MutationPoint
  tested_points c =
      select (is_candidate w e c)
        (take (maximum_points context.profile) (active_candidates w e sql_injection))

  abbrev pub findings_of : List Outcome → List FindingDraft
  findings_of [] = []
  findings_of (o ∷ os) = o.found ++ findings_of os

  abbrev requests_of : List Outcome → ℕ
  requests_of os = sum_by (λ o. o.requests) os

  -- The status of `ssrf` and its reason: whether there is a collector, whether it failed, and
  -- whether there is a finding.
  abbrev pub ssrf_status : Bool → Bool → Bool → CheckStatus × Option Text
  ssrf_status false failed found =
      (CheckStatus.skipped, some (codes "out-of-band callback service is not configured"))
  ssrf_status true true found =
      (CheckStatus.error, some (codes "out-of-band callback collector could not be queried"))
  ssrf_status true false found = (detected_or_tested found, none)

  abbrev pub active_status : ActiveCheck → List Outcome → CheckStatus × Option Text
  active_status ssrf os =
      ssrf_status (configured w) (any (λ o. o.collector_error) os) (not (is_empty (findings_of os)))
  active_status c os = (detected_or_tested (not (is_empty (findings_of os))), none)

  abbrev techniques_of : ActiveCheck → List Outcome → List Text
  techniques_of ssrf os = if requests_of os == 0 then [] else active_techniques ssrf
  techniques_of c os = active_techniques c

  -- The record of a check, after the loop over its points.
  unfoldable pub active_record : ActiveCheck → List MutationPoint → List Outcome → CheckRecord
  active_record c points os =
      let judged =
        if is_empty points
        then (CheckStatus.not_applicable, some (active_not_applicable_reason c))
        else active_status c os in
      check e (active_name c) judged.0 points (requests_of os) judged.1 (techniques_of c os)

  -- The points over which the loop goes: none for `ssrf` without a collector.
  abbrev pub looped_points : ActiveCheck → List MutationPoint
  looped_points ssrf = if configured w then tested_points ssrf else []
  looped_points c = tested_points c

  unfoldable pub test_active_check : Response → ActiveCheck → Exec Tested
  unfolding test_point active_record
  test_active_check baseline c = for_each (test_point baseline c) (looped_points c) >>= λ os.
      pure
        (record { findings = findings_of os; checks = active_record c (tested_points c) os ∷ [] })

  abbrev pub inactive_reason : Text
  inactive_reason =
      profile_text context.profile ++ codes " profile does not execute active input mutation"

  -- _input_validation_tests
  unfoldable pub input_validation_tests : Response → Exec Tested
  unfolding test_active_check
  input_validation_tests baseline =
      if is_active context.profile
      then (for_each (test_active_check baseline) active_checks >>= λ ts. pure (joined ts))
      else pure (record {
        findings = [];
        checks = map (active_skipped w context e inactive_reason) active_checks;
      })
