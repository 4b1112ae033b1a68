-- ===== src/Custom/Tests.antt =====
-- Runs of the engine, on a target that answers each request with the same text.
use api_scanner.Common.{
  inl, inr, ℕ, refl, ◌≤◌, true, false, ◌≡◌, none, some, [], ◌∷◌, ◌++◌, any, All, length, arith,
}
use api_scanner.Common.Text.{codes}
use api_scanner.Json.{Json, null, arr, cons, nil, obj, end, str, field}
use api_scanner.Scope.{Net, https, absent, Response}
use api_scanner.Orchestrator.Policy.{standard}
use api_scanner.Orchestrator.Engines.{EngineResult, returned}
use api_scanner.Custom.{Endpoint, no_auth, Context, PreparedRequest, and_then, Web}
use api_scanner.Custom.Session
use api_scanner.Custom.Session.{Session, send_prepared}
use api_scanner.Custom.Requests.{build_prepared_request, is_prepared}
use api_scanner.Custom.Checks.{Tested}
use api_scanner.Custom.Testing.{test_endpoint}
use api_scanner.Custom.Execute.{Gathered, start, gather, execute}
use api_scanner.Custom.Evidence.{
  sql_error_evidence, sql_boolean_evidence, nosql_injection_evidence, path_traversal_evidence,
  command_execution_evidence,
}
use api_scanner.Custom.Limits.{IsAdmitted}
use api_scanner.Custom.Reports.{IsSupported, heads, named}
use api_scanner.Custom.TestingReports.{endpoint_names}
use api_scanner.Custom.Outcomes.{gather-IsAdmitted, execute-request_count, gather-IsSupported}
use api_scanner.Custom.Points.{eligible_points, body_points, replace_body_value}
use api_scanner.Custom.Authorization.{bola_applicable}
use api_scanner.Custom.Bodies.{value_at, HasKeysOnce, body_points-replaced}
use api_scanner.Custom.Differential.{alike-without_evidence}
use api_scanner.Custom.Answered.{is_answered, has_answer, test_endpoint-answered}
use api_scanner.Custom.Exhausted.{
  exhausted, send_prepared-exhausted, test_endpoint-unanswered, IsUnsent, test_endpoint-exhausted,
}

-- The network of a target that answers with the code points of `ok`.
abbrev net : Net
net = record {
  urlsplit = λ url. some (record {
    scheme = https;
    username = none;
    password = none;
    hostname = some (codes "a.x");
    port = absent;
    netloc = codes "a.x";
    path = url;
    query = [];
  });
  urlunsplit = λ scheme netloc path query. path;
  urljoin = λ base location. location;
  idna = λ name. some name;
  is_ip = λ _. false;
  is_global = λ _. true;
  decode = λ headers body. some body;
  getaddrinfo = λ _ host port. some (codes "1.1.1.1" ∷ []);
  send = λ n url.
      some (record { status = 200; location = none; headers = []; chunks = codes "ok" ∷ [] });
}

abbrev web : Web
web = record {
  net = λ _ _. net;
  reading = λ moment. record { now = moment; woke = moment };
  interval = λ rate. 1;
  max_response_size = 100;
  allow_private = false;
  describe = λ e. record { kind = codes "ScopeViolation"; detail = [] };
  register = λ _ _. some true;
  poll = λ _ _. some false;
  token = λ _. codes "t";
  callback_base_url = none;
  poll_base_url = none;
  oast_api_key = [];
  text = λ r. r.body;
  ratio = λ a b. record { num = 1; den = 1 };
  search = λ pattern text. false;
  load_json = λ _. none;
  dump_json = λ _. [];
  dump_compact = λ _. [];
  mask = λ t. t;
  str_of = λ _. [];
  integer = λ v. inr v;
  float = λ v. inr v;
  items_failure = λ v. record { kind = codes "AttributeError"; detail = codes "no items" };
  pairs = λ v. inl (record { kind = codes "TypeError"; detail = codes "no pairs" });
  digits = λ n. n ∷ [];
  round = λ _. codes "1.0";
  escape = λ t. t;
  quote = λ t. t;
  quote_path = λ t. t;
  base64 = λ t. t;
  parse_qsl = λ _. [];
  url_join = λ base path. base ++ path;
  hostname = λ _. inr none;
  urlencode = λ _. [];
}

abbrev endpoint : Endpoint
endpoint = record {
  endpoint_id = codes "1";
  base_url = codes "https://a.x";
  path = codes "/items";
  method = codes "GET";
  tags = [];
  parameters =
      record {
        name = codes "q";
        location = codes "query";
        schema = obj end;
        example = str (codes "v");
      }
      ∷ [];
  request_body = null;
  auth_required = false;
}

-- A scan of one endpoint with at most `n` requests.
abbrev context : ℕ → Context
context n = record {
  allowed_hosts = codes "a.x" ∷ [];
  profile = standard;
  limits = record {
    rate_limit = 1;
    concurrency = 1;
    request_timeout = 1;
    max_requests = n;
    max_duration = 1;
  };
  endpoints = endpoint ∷ [];
  auth = no_auth;
  identities = [];
}

gather-IsAdmitted_example :
    All (IsAdmitted web (context 50)) (gather web (context 50) (start web (context 50))).1.sent
gather-IsAdmitted_example = gather-IsAdmitted web (context 50)

execute-request_count_example :
    (r : EngineResult) × (execute web (context 5) ≡ returned r)
    × (length (gather web (context 5) (start web (context 5))).1.sent ≤ r.request_count)
    × (r.request_count ≤ 5)
execute-request_count_example = execute-request_count web (context 5)

gather-IsSupported_example :
    (g : Gathered) × ((gather web (context 50) (start web (context 50))).0 ≡ Session.ok g)
    × All (IsSupported g.tested.findings) g.tested.checks
gather-IsSupported_example = gather-IsSupported web (context 50)

abbrev response : Response
response = record { status = 200; location = none; headers = []; body = codes "ok" }

alike-without_evidence_example :
    (sql_error_evidence web response response ≡ none)
    × (sql_boolean_evidence web response response (codes "1") (codes "2") ≡ none)
    × (nosql_injection_evidence web response response response ≡ none)
    × (path_traversal_evidence web response response ≡ none)
alike-without_evidence_example = alike-without_evidence web response (codes "1") (codes "2")

endpoint_prepared : is_prepared web endpoint ≡ true
unfolding build_prepared_request eligible_points api_scanner.Custom.Schema.body_definition
    api_scanner.Json.get api_scanner.Common.Text.text_eq
endpoint_prepared = refl

abbrev spent : Session
spent = record {
  budget = record { maximum = 2; interval = 1; count = 2; last_request = 0 };
  sent = [];
  moment = 4;
}

test_endpoint-exhausted_example :
    (t : Tested) × (test_endpoint web (context 2) endpoint spent
      ≡ (Session.ok t, record spent { moment = 5 }))
    × (heads t.checks ≡ named endpoint endpoint_names)
    × All IsUnsent t.checks
test_endpoint-exhausted_example =
    test_endpoint-exhausted web (context 2) endpoint spent endpoint_prepared (omega arith)

abbrev plain_request : PreparedRequest
plain_request = record {
  url = codes "https://a.x/items";
  params = (codes "q", codes "v") ∷ [];
  headers = [];
  cookies = [];
  json_body = none;
  data_body = none;
  media_type = none;
}

plain_request_of : build_prepared_request web endpoint none ≡ inr plain_request
unfolding build_prepared_request eligible_points api_scanner.Custom.Schema.body_definition
    api_scanner.Json.get api_scanner.Common.Text.text_eq api_scanner.Common.Text.rstrip
    api_scanner.Common.Text.lstrip
plain_request_of = refl

test_endpoint-unanswered_example :
    (t : Tested) × (test_endpoint web (context 2) endpoint spent
      ≡ (Session.ok t, record spent { moment = 5 }))
    × (heads t.checks ≡ named endpoint endpoint_names)
    × All IsUnsent t.checks
test_endpoint-unanswered_example =
    test_endpoint-unanswered web (context 2) endpoint spent (record spent { moment = 5 })
      plain_request exhausted plain_request_of
      (send_prepared-exhausted web (context 2) (codes "GET") plain_request spent (omega arith))

test_endpoint-answered_example :
    (t : Tested) × (after : Session) × (test_endpoint web
        (context 50)
        endpoint
        (start web (context 50))
      ≡ (Session.ok t, after))
    × (any has_answer t.checks
        ≡ is_answered
            (send_prepared web
              (context 50)
              no_auth
              (codes "GET")
              plain_request
              (start web (context 50))).0)
test_endpoint-answered_example =
    test_endpoint-answered web (context 50) endpoint (start web (context 50)) plain_request
      plain_request_of

-- {"properties": null} raises an exception: the endpoint has an error and no check.
abbrev malformed : Endpoint
malformed = record endpoint {
  parameters =
      record {
        name = codes "q";
        location = codes "query";
        schema = obj (field (codes "properties") null end);
        example = null;
      }
      ∷ [];
}

malformed_raises : is_prepared web malformed ≡ false
unfolding build_prepared_request eligible_points api_scanner.Custom.Points.parameter_points
    api_scanner.Custom.Points.is_left_out api_scanner.Custom.Schema.sample
    api_scanner.Custom.Schema.sample_step api_scanner.Custom.Schema.sample_kind
    api_scanner.Custom.Schema.schema_type api_scanner.Custom.Schema.entry api_scanner.Json.get
    api_scanner.Common.Text.text_eq api_scanner.Common.Text.lower
malformed_raises = refl

-- {"a": ["b"]}
abbrev body : Json
body = obj (field (codes "a") (arr (cons (str (codes "b")) nil)) end)

body_points-replaced_example :
    All
      (λ p.
        (value_at p.body_path body ≡ some p.baseline)
        × (value_at p.body_path (replace_body_value p.body_path null body) ≡ some null))
      (body_points web (codes "application/json") (obj end) [] body)
unfolding HasKeysOnce
body_points-replaced_example =
    body_points-replaced web (codes "application/json") (obj end) null body (refl, (tt, tt), tt)

-- The payload takes the place of the parameter's value.
prepared :
    and_then
      (build_prepared_request web endpoint (some (codes "query:q", str (codes "'"))))
      (λ p. inr p.params)
    ≡ inr ((codes "q", codes "'") ∷ [])
unfolding build_prepared_request api_scanner.Custom.Schema.body_definition api_scanner.Json.get
    api_scanner.Common.Text.text_eq
prepared = refl

bola_of_endpoint : bola_applicable endpoint ≡ false
unfolding bola_applicable api_scanner.Common.Text.text_eq
bola_of_endpoint = refl

command_echo :
    command_execution_evidence web
      (codes "; echo M")
      (codes "M")
      (record response { body = codes "; echo M" })
    ≡ none
unfolding command_execution_evidence api_scanner.Common.Text.occurs
    api_scanner.Common.Text.starts_with
command_echo = refl
