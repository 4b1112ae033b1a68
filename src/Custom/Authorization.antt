-- ===== src/Custom/Authorization.antt =====
-- `_authorization_tests` and `_bola_applicable` of app/engines/custom.py: two checks of each
-- endpoint, which send as one identity what belongs to another.
use api_scanner.Common.{
  Bool, not, ◌||◌, ◌&&◌, Option, none, some, List, [], ◌∷◌, ◌++◌, select, any, ltb, if◌then◌else◌,
  map,
}
use api_scanner.Common.Text.{Text, codes, text_eq, lower, occurs}
use api_scanner.Common.Sorting.{is_in}
use api_scanner.Json.{number, str, obj, end, field}
use api_scanner.Scope.{Response}
use api_scanner.Domain.{FindingType, Severity, Confidence}
use api_scanner.Coverage.{CheckStatus}
use api_scanner.Custom.{Parameter, Endpoint, Identity, Context, Request, Ratio, at_least, Web}
use api_scanner.Custom.Session.{Exec, ◌>>=◌, pure, attempt, send}
use api_scanner.Custom.Points.{path_location}
use api_scanner.Custom.Requests.{endpoint_url}
use api_scanner.Custom.Evidence.{response_similarity, Verdict, authorization_confidence}
use api_scanner.Custom.Checks.{
  check, Tested, join_tested, one_check, detected_or_tested, Issue, issue, finding,
}

abbrev is_path_parameter : Parameter → Bool
is_path_parameter p = text_eq p.location path_location

-- _bola_applicable
unfoldable pub bola_applicable : Endpoint → Bool
bola_applicable e =
    text_eq e.method (codes "GET") && (e.auth_required && any is_path_parameter e.parameters)

unfoldable pub bfla_candidate : Endpoint → Bool
bfla_candidate e =
    is_in (codes "admin") (map lower e.tags) || occurs (codes "/admin") (lower e.path)

-- The identities with a resource, each with its first one.
abbrev pub owners : List Identity → List (Identity × Text)
owners [] = []
owners (i ∷ is) = elim i.resource_ids [ [] ↦ owners is | id ∷ ids ↦ (i, id) ∷ owners is ]

-- The name of the first path parameter.
abbrev path_parameter : List Parameter → Option Text
path_parameter [] = none
path_parameter (p ∷ ps) = if is_path_parameter p then some p.name else path_parameter ps

abbrev pub bare : Text → Request
bare method = record {
  method = method;
  params = [];
  headers = [];
  cookies = [];
  json = none;
  data_body = none;
}

module _ (w : Web) (context : Context) (e : Endpoint) where
  abbrev bola_issue : Identity → Identity → Text → Verdict → Response → Issue
  bola_issue owner foreign foreign_id v cross =
      record (issue (codes "Broken object-level authorization") (codes "bola") Severity.high
        v.confidence (codes "One identity retrieved a resource assigned to a different identity.")
        (codes "Authorize every object access against the authenticated subject and tenant.")) {
          parameter = path_parameter e.parameters;
          cwe = some (codes "CWE-639");
          owasp = some (codes "API1:2023 Broken Object Level Authorization");
          response = some cross;
          detail = obj (
              field (codes "actor") (str owner.name) (
                field (codes "foreign_identity") (str foreign.name) (
                  field (codes "foreign_resource_id") (str foreign_id)
                    (field (codes "response_similarity") (number (w.round v.similarity)) end))));
          finding_type = FindingType.authorization;
        }

  unfoldable pub judge_bola : Identity → Identity → Text → Response → Response → Tested
  unfolding authorization_confidence
  judge_bola owner foreign foreign_id owned cross =
      let v = authorization_confidence w owned cross foreign_id in
      record {
        findings =
            if v.vulnerable
            then finding w context e (bola_issue owner foreign foreign_id v cross) ∷ []
            else [];
        checks =
            check e (codes "bola") (detected_or_tested v.vulnerable) [] 2 none
              (codes "owner/foreign object identity comparison" ∷ [])
            ∷ [];
      }

  unfoldable pub compare_owners : Identity × Text → Identity × Text → Exec Tested
  unfolding judge_bola
  compare_owners owner foreign =
      attempt
        (send w context owner.0.auth (bare (codes "GET")) (endpoint_url w e (some owner.1))
          >>= λ owned.
              (send w context owner.0.auth (bare (codes "GET")) (endpoint_url w e (some foreign.1))
                >>= λ cross. pure (judge_bola owner.0 foreign.0 foreign.1 owned cross)))
        (λ f. pure (
          one_check (
            check e (codes "bola") CheckStatus.error [] 0
              (some (codes "authorization comparison failed: " ++ f.kind)) [])))

  abbrev pub bola_left_out : CheckStatus → Text → Exec Tested
  bola_left_out status reason =
      pure (one_check (check e (codes "bola") status [] 0 (some reason) []))

  -- The tests between the owners of the first two resources.
  abbrev pub bola_between : List (Identity × Text) → Exec Tested
  bola_between (owner ∷ foreign ∷ is) = compare_owners owner foreign
  bola_between _ =
      bola_left_out CheckStatus.skipped
        (codes "two identities with distinct resource identifiers are required")

  unfoldable pub test_bola : Exec Tested
  unfolding compare_owners
  test_bola =
      if bola_applicable e
      then bola_between (owners context.identities)
      else if not e.auth_required
      then bola_left_out CheckStatus.not_applicable
          (codes "operation is not documented as requiring authorization")
      else bola_left_out CheckStatus.not_applicable
          (codes "a GET operation with an object path parameter is required")

  abbrev bfla_issue : Identity → Ratio → Response → Issue
  bfla_issue regular similarity r =
      record (issue (codes "Broken function-level authorization") (codes "bfla") Severity.high
        (if at_least 95 similarity then Confidence.high else Confidence.medium)
        (codes
          "A non-administrator invoked an administrative operation with behavior matching an administrator.")
        (codes "Enforce role or permission checks for every privileged function.")) {
          cwe = some (codes "CWE-862");
          owasp = some (codes "API5:2023 Broken Function Level Authorization");
          response = some r;
          detail = obj (
              field (codes "actor") (str regular.name)
                (field (codes "admin_similarity") (number (w.round similarity)) end));
          finding_type = FindingType.authorization;
        }

  unfoldable pub judge_bfla : Identity → Response → Response → Tested
  judge_bfla regular admin_response regular_response =
      let similarity = response_similarity w (w.text admin_response) (w.text regular_response) in
      let vulnerable =
        ltb admin_response.status 300
        && (ltb regular_response.status 300 && at_least 80 similarity) in
      record {
        findings =
            if vulnerable
            then finding w context e (bfla_issue regular similarity regular_response) ∷ []
            else [];
        checks =
            check e (codes "bfla") (detected_or_tested vulnerable) [] 2 none
              (codes "administrator/regular-user behavior comparison" ∷ [])
            ∷ [];
      }

  unfoldable pub compare_roles : Identity → Identity → Exec Tested
  unfolding judge_bfla
  compare_roles admin regular =
      attempt
        (send w context admin.auth (bare e.method) (endpoint_url w e none) >>= λ a.
          (send w context regular.auth (bare e.method) (endpoint_url w e none) >>= λ r.
          pure (judge_bfla regular a r)))
        (λ f. pure (
          one_check (
            check e (codes "bfla") CheckStatus.error [] 0
              (some (codes "role comparison failed: " ++ f.kind)) [])))

  abbrev pub bfla_left_out : CheckStatus → Text → Exec Tested
  bfla_left_out status reason =
      pure (one_check (check e (codes "bfla") status [] 0 (some reason) []))

  abbrev pub roles_required : Exec Tested
  roles_required =
      bfla_left_out CheckStatus.skipped
        (codes "administrator and regular-user identities are required")

  -- The tests between the first administrator and the first other identity.
  abbrev pub bfla_between : List Identity → List Identity → Exec Tested
  bfla_between (admin ∷ admins) (regular ∷ regulars) =
      if is_in e.method (codes "GET" ∷ codes "HEAD" ∷ [])
      then compare_roles admin regular
      else roles_required
  bfla_between _ _ = roles_required

  unfoldable pub test_bfla : Exec Tested
  unfolding compare_roles
  test_bfla =
      if bfla_candidate e
      then bfla_between (select (λ i. i.is_admin) context.identities)
          (select (λ i. not i.is_admin) context.identities)
      else bfla_left_out CheckStatus.not_applicable
          (codes "operation is not identified as administrative")

  unfoldable pub test_authorization : Exec Tested
  unfolding test_bola test_bfla
  test_authorization = test_bola >>= λ b. (test_bfla >>= λ f. pure (join_tested b f))
