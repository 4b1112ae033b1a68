-- ===== src/Runner/Tests.antt =====
-- Runs of a WuppieFuzz runner that is asked to fuzz one API.
use api_scanner.Common.{true, false, ◌≡◌, ◌↔◌, refl, none, some, Option, [], ◌∷◌}
use api_scanner.Common.Text.{Text, codes, text_eq}
use api_scanner.Json.{Json, null, number, str, arr, obj, nil, cons, Fields, end, field}
use api_scanner.Scope.{Net, absent, https}
use api_scanner.Runner.{World, RunRequest, Server, outputs, code}
use api_scanner.Runner.Proxy.{Hop, proxy, removed}
use api_scanner.Runner.Rewrite.{is_openapi, rewrite_specification}
use api_scanner.Runner.Run.{is_wuppie, refusal, run, Circumstances}
use api_scanner.Runner.Spending.{IsSpent, run-IsSpent}
use api_scanner.Runner.Servers.{IsPointed, rewrite_specification-IsPointed}
use api_scanner.Runner.Refusal.{IsStartable, refusal-none_iff}

-- Every text is an URL of the host `a.x`, which has one public address.
abbrev net : Net
net = record {
  urlsplit = λ url. some (record {
    scheme = https;
    username = none;
    password = none;
    hostname = some (codes "a.x");
    port = absent;
    netloc = codes "a.x";
    path = url;
    query = [];
  });
  urlunsplit = λ scheme netloc path query. path;
  urljoin = λ base location. location;
  idna = λ name. some name;
  is_ip = λ _. false;
  is_global = λ _. true;
  decode = λ headers body. some body;
  getaddrinfo = λ _ host port. some (codes "1.1.1.1" ∷ []);
  send = λ n url. some (record {
    status = 200;
    location = none;
    headers = (codes "content-length", codes "2") ∷ (codes "x-a", codes "b") ∷ [];
    chunks = (1 ∷ 2 ∷ []) ∷ [];
  });
}

abbrev world : World
world = record {
  engine = codes "wuppiefuzz";
  runner_token = codes "t";
  allow_private = false;
  max_output = 100;
  max_proxy_body = 10;
  internal_url = codes "http://r/";
  net = λ _ _. net;
  resolver = net;
  reading = λ n. record { now = n; woke = n };
  ticks_per_second = 1;
  payload_lines = [];
  decode = λ bytes. bytes;
  split_lines = λ t. t ∷ [];
  is_anomaly = λ _. false;
  mask = λ t. t;
  load_json = λ _. none;
  dump_json = λ _. [];
  str_of = λ _. codes "s";
  digits = λ n. n ∷ [];
  quotient = λ a b. a ∷ b ∷ [];
  base64 = λ t. t;
  urlencode = λ _. [];
  split_url = λ t. record { scheme = https; netloc = t; path = [] };
  describe = λ _. [];
}

abbrev document : Fields
document = field (codes "openapi") (str (codes "3.0.0")) (
    field (codes "paths")
      (obj (
        field (codes "/p")
          (obj (
            field (codes "servers") (arr (cons (str (codes "https://b.y")) nil))
              (field (codes "get") (obj end) end)))
          end))
      end)

abbrev request : RunRequest
request = record {
  target_url = codes "https://a.x/";
  endpoints = [];
  specification = some document;
  profile = codes "STANDARD";
  rate_limit = record { numerator = 1; denominator = 2 };
  concurrency = 1;
  request_timeout = 1000;
  max_requests = 1;
  max_duration = 60;
  allowed_hosts = codes "A.X" ∷ [];
  authentication = none;
}

abbrev token : Option Text
token = some (codes "t")

abbrev idle : Server
idle = record { jobs = []; moment = 0 }

-- Two requests reach the proxy, one more than are allowed, and another run ends.
abbrev circumstances : Circumstances
circumstances =
    let hop : Hop = record {
      job_id = codes "j";
      path = codes "/p";
      method = codes "GET";
      query = [];
      headers = (codes "host", codes "r") ∷ (codes "accept", codes "json") ∷ [];
      body = [];
    } in
    record {
      id = codes "j";
      directory = codes "/tmp/d";
      events = proxy hop ∷ removed (codes "k") ∷ proxy hop ∷ [];
      writes = λ path. true;
      process = λ prepared seconds. outputs [] [] (code 0) (λ _. none) none;
    }

wuppie : is_wuppie world ≡ true
unfolding text_eq
wuppie = refl

k_is_other : text_eq (codes "k") (codes "j") ≡ false
unfolding text_eq
k_is_other = refl

openapi : is_openapi document ≡ true
unfolding is_openapi api_scanner.Json.get text_eq
openapi = refl

run-IsSpent_example :
    IsSpent world wuppie request (codes "j") (run world idle request token circumstances)
run-IsSpent_example =
    run-IsSpent world wuppie request idle token circumstances (tt, (k_is_other, (tt, tt)))

rewrite_specification-IsPointed_example :
    IsPointed (codes "u") document (rewrite_specification world (codes "u") document)
rewrite_specification-IsPointed_example =
    rewrite_specification-IsPointed world (codes "u") document openapi

refusal-none_iff_example :
    (refusal world 0 request token ≡ none) ↔ IsStartable world 0 request token
refusal-none_iff_example = refusal-none_iff world 0 request token
