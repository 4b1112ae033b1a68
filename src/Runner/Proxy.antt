-- ===== src/Runner/Proxy.antt =====
-- `wuppie_proxy` of engine_runner/main.py, and the traffic that reaches the registry while a child
-- process runs: requests to the proxy, and jobs that other runs register and remove.
use api_scanner.Common.{
  ℕ, suc, Bool, true, not, ◌&&◌, none, some, List, [], ◌∷◌, ◌++◌, ltb, length, is_empty,
  if◌then◌else◌,
}
use api_scanner.Common.Text.{Text, codes, text_eq, lower, rstrip, lstrip}
use api_scanner.Common.Sorting.{is_in}
use api_scanner.Scope.{Checked, err, ok, ScopeError, Response, ScopedHttpClient, scope_guard}
use api_scanner.Scope
use api_scanner.Budget.{take}
use api_scanner.Custom.Session.{put}
use api_scanner.Runner.{World, Upstream, ProxyJob, Server}
use api_scanner.Common.Dict.{lookup, insert, remove}

-- The request that reaches the route; names of headers are in lower case.
pub record Hop : Type 0 where
  pub job_id : Text
  pub path : Text
  pub method : Text
  pub query : List (Text × Text)
  pub headers : List (Text × Text)
  pub body : List ℕ

-- What the proxy asked of the scoped client, and what that sent.
pub record Call : Type 0 where
  pub job_id : Text
  pub moment : ℕ
  pub upstream : Upstream
  pub url : Text
  pub run : Scope.Run

-- An HTTPException; the answer with status 599 and its text; or the answer of the target, the media type
-- of which is its content-type header.
pub data ProxyAnswer : Type 0 where
  refused : ℕ → ProxyAnswer
  failed : Text → ProxyAnswer
  relayed : ℕ → List (Text × Text) → List ℕ → ProxyAnswer

-- HOP_BY_HOP
abbrev pub hop_by_hop : List Text
hop_by_hop =
    codes "connection"
    ∷ codes "content-encoding"
    ∷ codes "content-length"
    ∷ codes "host"
    ∷ codes "keep-alive"
    ∷ codes "proxy-authenticate"
    ∷ codes "proxy-authorization"
    ∷ codes "te"
    ∷ codes "trailer"
    ∷ codes "transfer-encoding"
    ∷ codes "upgrade"
    ∷ []

abbrev pub runner_header : Text
runner_header = codes "x-runner-token"

abbrev pub is_forwarded : Text → Bool
is_forwarded name = not (is_in (lower name) hop_by_hop) && not (text_eq (lower name) runner_header)

abbrev is_end_to_end : Text → Bool
is_end_to_end name = not (is_in (lower name) hop_by_hop)

-- {name: value for name, value in headers.items() if ...}
unfoldable pub filter_headers :
    (Text → Bool) → List (Text × Text) → List (Text × Text) → List (Text × Text)
filter_headers keep kept [] = kept
filter_headers keep kept ((name, value) ∷ headers) =
    filter_headers keep (if keep name then put name value kept else kept) headers

-- The URL at the target.
abbrev pub target_of : World → ProxyJob → Hop → Text
target_of w job hop =
    let query = w.urlencode hop.query in
    let target = rstrip b'/' job.target_url ++ (codes "/" ++ lstrip b'/' hop.path) in
    if is_empty query then target else target ++ (codes "?" ++ query)

abbrev pub job_client : World → ProxyJob → ScopedHttpClient
job_client w job = record {
  guard = scope_guard job.allowed_hosts w.allow_private;
  max_response_size = w.max_proxy_body;
  max_redirects = 3;
}

-- The call of `client.request`, redirects followed, at the moment of the server.
unfoldable pub call_of : World → ℕ → ProxyJob → Hop → Call
unfolding filter_headers
call_of w moment job hop =
    let upstream : Upstream = record {
      method = hop.method;
      headers = filter_headers is_forwarded [] hop.headers;
      body = hop.body;
    } in
    record {
      job_id = hop.job_id;
      moment = moment;
      upstream = upstream;
      url = target_of w job hop;
      run = Scope.request (w.net moment upstream) (job_client w job) true (target_of w job hop);
    }

abbrev answer_of : World → Checked Response → ProxyAnswer
answer_of w (err e) = failed (codes "target request failed: " ++ w.describe e)
answer_of w (ok r) = relayed r.status (filter_headers is_end_to_end [] r.headers) r.body

-- The answer, the server after it, and the call if one was made.
pub record Step : Type 0 where
  pub answer : ProxyAnswer
  pub server : Server
  pub calls : List Call

abbrev refusal : Server → ℕ → Step
refusal s status = record { answer = refused status; server = s; calls = [] }

-- After the tests on the job and the body: take from the budget, and call.
unfoldable pub relay : World → Server → ProxyJob → Hop → Step
unfolding call_of
relay w s job hop = elim (take job.budget (w.reading s.moment)) [
  | none ↦ refusal (record s { moment = suc s.moment }) 429
  | some budget ↦
      let call = call_of w s.moment job hop in
      record {
        answer = answer_of w call.run.result;
        server = record {
          jobs = insert hop.job_id (record job { budget = budget }) s.jobs;
          moment = suc s.moment;
        };
        calls = call ∷ [];
      }
]

-- wuppie_proxy
unfoldable pub wuppie_proxy : World → Server → Hop → Step
unfolding relay
wuppie_proxy w s hop = elim (lookup hop.job_id s.jobs) [
  | none ↦ refusal s 404
  | some job ↦ if ltb w.max_proxy_body (length hop.body) then refusal s 413 else relay w s job hop
]

pub data Traffic : Type 0 where
  proxy : Hop → Traffic
  registered : Text → ProxyJob → Traffic
  removed : Text → Traffic

-- The server and the calls after an event.
unfoldable pub meanwhile : World → Server → Traffic → Server × List Call
unfolding wuppie_proxy
meanwhile w s (proxy hop) = let step = wuppie_proxy w s hop in (step.server, step.calls)
meanwhile w s (registered id job) = (record s { jobs = insert id job s.jobs }, [])
meanwhile w s (removed id) = (record s { jobs = remove id s.jobs }, [])

unfoldable pub traffic : World → Server → List Traffic → Server × List Call
unfolding meanwhile
traffic w s [] = (s, [])
traffic w s (event ∷ events) =
    let (s', calls) = meanwhile w s event in
    let (s'', more) = traffic w s' events in (s'', calls ++ more)
