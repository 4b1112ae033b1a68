-- ===== src/Runner/Run.antt =====
-- `run` of engine_runner/main.py: the tests on a request, the registration of its proxy job, the child
-- process with the traffic during it, and the answer. The durations in the answer are left out.
use api_scanner.Common.{
  ℕ, suc, ◌+◌, ◌-◌, min, max, Bool, false, not, ◌&&◌, ◌||◌, Option, none, some, List, [], ◌∷◌, ◌++◌,
  ltb, length, drop, all, if◌then◌else◌,
}
use api_scanner.Common.Text.{Text, codes, text_eq, rstrip}
use api_scanner.Common.Sorting.{is_in}
use api_scanner.Json.{Json, null, obj, Fields, get}
use api_scanner.Custom.Schema.{json_or, is_truthy, no_fields}
use api_scanner.Scope.{ScopeError, ScopeGuard, err, ok, is_violation, scope_guard, validate}
use api_scanner.Runner.{
  World, RunRequest, Row, ExitCode, code, signal, Ending, unstartable, too_slow, outputs, ProxyJob,
  proxy_job, Server, is_authentic,
}
use api_scanner.Common.Dict.{lookup, insert, remove}
use api_scanner.Runner.Credentials.{sanitize_tool_output}
use api_scanner.Runner.Commands.{
  Prepared, nuclei_command, wfuzz_command, wuppie_command, fields_or_empty, seconds_needed,
}
use api_scanner.Runner.Rewrite.{is_openapi, is_swagger, refers_outside}
use api_scanner.Runner.Events.{read_json_events, wuppie_events}
use api_scanner.Runner.Proxy.{Call, Traffic, traffic}

pub record RunResult : Type 0 where
  pub status : Text
  pub events : List Json
  pub request_count : Option ℕ
  pub reason : Option Text
  pub stderr : Option Text

-- An HTTPException with its status, an exception that nothing catches, or the body of the answer.
pub data RunAnswer : Type 0 where
  rejected : ℕ → RunAnswer
  raised : RunAnswer
  answered : RunResult → RunAnswer

abbrev without_events : Text → Text → RunAnswer
without_events status reason = answered (record {
  status = status;
  events = [];
  request_count = none;
  reason = some reason;
  stderr = none;
})

abbrev pub nuclei : Text
nuclei = codes "nuclei"

abbrev pub wfuzz : Text
wfuzz = codes "wfuzz"

abbrev pub wuppiefuzz : Text
wuppiefuzz = codes "wuppiefuzz"

abbrev pub is_wuppie : World → Bool
is_wuppie w = text_eq w.engine wuppiefuzz

-- str(base_url) of the endpoints that have one
unfoldable pub base_urls : World → List Fields → List Text
base_urls w [] = []
base_urls w (endpoint ∷ endpoints) =
    let rest = base_urls w endpoints in
    let base_url = json_or (get (codes "base_url") endpoint) null in
    if is_truthy base_url then w.str_of base_url ∷ rest else rest

-- The first error of `guard.validate` on the URLs, each at a moment of its own.
unfoldable pub first_error : World → ScopeGuard → ℕ → List Text → Option ScopeError
first_error w guard now [] = none
first_error w guard now (url ∷ urls) =
    let rest = first_error w guard (suc now) urls in
    elim (validate w.resolver guard now url) [ err e ↦ some e | ok target ↦ rest ]

-- The scanned URLs of a request.
abbrev pub urls_of : World → RunRequest → List Text
urls_of w request = request.target_url ∷ base_urls w request.endpoints

abbrev pub request_guard : World → RunRequest → ScopeGuard
request_guard w request = scope_guard request.allowed_hosts w.allow_private

unfoldable pub has_specification : World → RunRequest → Bool
unfolding is_openapi is_swagger
has_specification w request =
    let document = fields_or_empty request.specification in
    not (no_fields document) && (is_openapi document || is_swagger w document)

abbrev pub refers_elsewhere : RunRequest → Bool
refers_elsewhere request = refers_outside (obj (fields_or_empty request.specification))

-- What `run` answers before it starts a process; `none`, if it goes on.
unfoldable pub refusal : World → ℕ → RunRequest → Option Text → Option RunAnswer
unfolding first_error base_urls has_specification is_authentic
refusal w now request token =
    if not (is_authentic w token)
    then some (rejected 401)
    else if not (is_in w.engine (nuclei ∷ wfuzz ∷ wuppiefuzz ∷ []))
    then some (rejected 500)
    else elim (first_error w (request_guard w request) now (urls_of w request)) [
      | some e ↦ some (if is_violation e then rejected 422 else raised)
      | none ↦
          if is_wuppie w && not (has_specification w request)
          then some (without_events (codes "SKIPPED") (codes "OpenAPI specification required"))
          else if is_wuppie w && refers_elsewhere request
          then some (
              without_events (codes "SKIPPED")
                (codes "external specification references are not fetched by the isolated runner"))
          else none
    ]

-- What `_run_process` returns or raises: TimeoutError, or another exception by its name.
pub data Processed : Type 0 where
  timed_out : Processed
  broken : Text → Processed
  returned : ExitCode → Text → Text → Processed

unfoldable pub run_process : World → Ending → Processed
run_process w (unstartable kind) = broken kind
run_process w too_slow = timed_out
run_process w (outputs out error exit written report) =
    if ltb w.max_output (length out) || ltb w.max_output (length error)
    then broken (codes "ValueError")
    else returned exit (w.decode out) (w.decode error)

abbrev pub written_file : Ending → Text → Option Text
written_file (outputs out error exit written report) path = written path
written_file _ path = none

abbrev pub report_of : Ending → Option (List Row)
report_of (outputs out error exit written report) = report
report_of _ = none

-- return_code in {0, 1}
abbrev pub is_success : ExitCode → Bool
is_success (code n) = ltb n 2
is_success (signal n) = false

abbrev exit_text : World → ExitCode → Text
exit_text w (code n) = w.digits n
exit_text w (signal n) = codes "-" ++ w.digits n

-- text[-4000:]
abbrev last_4000 : Text → Text
last_4000 t = drop (length t - 4000) t

abbrev count_of : Option ProxyJob → ℕ → ℕ
count_of none rows = rows
count_of (some job) rows = job.budget.count

-- The events of a process that ended, and the requests that it made.
unfoldable pub gathered : World → Prepared → Option ProxyJob → Ending → Text → Text → List Json × ℕ
gathered w prepared job ending stdout stderr =
    let (events, rows) = wuppie_events w (report_of ending) stdout stderr in
    let read = read_json_events w (written_file ending prepared.output) stdout in
    if is_wuppie w then (events, count_of job rows) else (read, length read)

unfoldable pub completed :
    World → RunRequest → Prepared → Option ProxyJob → Ending → ExitCode → Text → Text → RunAnswer
unfolding gathered
completed w request prepared job ending exit stdout stderr =
    let (events, count) = gathered w prepared job ending stdout stderr in
    answered (record {
      status = if is_success exit then codes "COMPLETED" else codes "FAILED";
      events = events;
      request_count = some (min request.max_requests count);
      reason =
          if is_success exit
          then none
          else some (codes "tool exited with code " ++ exit_text w exit);
      stderr = some (sanitize_tool_output w (last_4000 stderr) request.authentication);
    })

-- The clauses after `_run_process`; the job is what was popped.
unfoldable pub concluded :
    World → RunRequest → Prepared → Option ProxyJob → Ending → Processed → RunAnswer
unfolding completed
concluded w request prepared job ending timed_out =
    without_events (codes "TIMEOUT") (codes "tool process exceeded duration limit")
concluded w request prepared job ending (broken kind) =
    without_events (codes "FAILED") (codes "tool process failed: " ++ kind)
concluded w request prepared job ending (returned exit stdout stderr) =
    completed w request prepared job ending exit stdout stderr

abbrev pub proxy_url : World → Text → Text
proxy_url w id = rstrip b'/' w.internal_url ++ (codes "/_wuppie_proxy/" ++ id)

unfoldable pub command_of : World → RunRequest → Text → Text → Option Prepared
command_of w request directory id =
    if is_wuppie w
    then wuppie_command w request directory (proxy_url w id)
    else if text_eq w.engine nuclei
    then nuclei_command w request directory
    else wfuzz_command w request directory

-- The command and its files; `writes` tells whether a file can be written and given its mode.
-- `none` is a KeyError or an OSError.
unfoldable pub prepare : World → (Text → Bool) → RunRequest → Text → Text → Option Prepared
unfolding command_of
prepare w writes request directory id = elim (command_of w request directory id) [
  | none ↦ none
  | some prepared ↦ if all (λ file. writes file.0) prepared.files then some prepared else none
]

unfoldable pub effective_duration : RunRequest → ℕ
effective_duration request = min request.max_duration (max 1 (seconds_needed request + 1))

-- What chance and the operating system give a run: its token and directory, the traffic during its
-- process, how that goes under its time limit, and which files can be written.
pub record Circumstances : Type 0 where
  pub id : Text
  pub directory : Text
  pub events : List Traffic
  pub process : Prepared → ℕ → Ending
  pub writes : Text → Bool

pub record Outcome : Type 0 where
  pub answer : RunAnswer
  pub server : Server
  pub calls : List Call

-- From the start of the process; `finally` pops the job.
unfoldable pub execute : World → Server → RunRequest → Circumstances → Prepared → Outcome
unfolding concluded run_process effective_duration traffic lookup remove
execute w s request c prepared =
    let (s', calls) = traffic w s c.events in
    let ending = c.process prepared (effective_duration request) in
    record {
      answer =
          concluded w request prepared (if is_wuppie w then lookup c.id s'.jobs else none) ending
            (run_process w ending);
      server = if is_wuppie w then record s' { jobs = remove c.id s'.jobs } else s';
      calls = calls;
    }

-- The registration of the job.
unfoldable pub register : World → Server → RunRequest → Text → Server
unfolding insert
register w s request id =
    if is_wuppie w then record s { jobs = insert id (proxy_job w request) s.jobs } else s

-- run
unfoldable pub run : World → Server → RunRequest → Option Text → Circumstances → Outcome
unfolding refusal prepare register execute
run w s request token c = elim (refusal w s.moment request token) [
  | some answer ↦ record { answer = answer; server = s; calls = [] }
  | none ↦ elim (prepare w c.writes request c.directory c.id) [
    | none ↦ record { answer = raised; server = register w s request c.id; calls = [] }
    | some prepared ↦ execute w (register w s request c.id) request c prepared
  ]
]
