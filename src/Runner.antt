-- ===== src/Runner.antt =====
-- The isolated engine runner, engine_runner/main.py. This file has its configuration, the request of a
-- run, the registry of proxy jobs and the token test; `World` stands for what the runner calls: the
-- network, the clock, `secrets`, the child process and what it leaves behind, `re`, `json`, `base64`
-- and `urllib`. A rate is a fraction and a timeout counts milliseconds, where the source has floats.
pub mod Credentials
pub mod Commands
pub mod Rewrite
pub mod Events
pub mod Proxy
pub mod Run
mod Closing
mod Relayed
mod Tracked
mod Spending
mod Servers
mod Refusal
mod Tests
use api_scanner.Common.{ℕ, ◌*◌, ◌/◌, Bool, true, not, ◌||◌, Option, none, some, List, [], ◌∷◌}
use api_scanner.Common.Text.{Text, codes, text_eq}
use api_scanner.Json.{Json, Items, nil, cons, Fields}
use api_scanner.Scope.{Net, ScopeError}
use api_scanner.Budget.{Reading, RequestBudget, request_budget}

-- Requests per second; neither part is 0.
pub record Rate : Type 0 where
  pub numerator : ℕ
  pub denominator : ℕ

-- RunRequest; `request_timeout` is in milliseconds.
pub record RunRequest : Type 0 where
  pub target_url : Text
  pub endpoints : List Fields
  pub specification : Option Fields
  pub profile : Text
  pub rate_limit : Rate
  pub concurrency : ℕ
  pub request_timeout : ℕ
  pub max_requests : ℕ
  pub max_duration : ℕ
  pub allowed_hosts : List Text
  pub authentication : Option Fields

-- What goes to the target beside the URL.
pub record Upstream : Type 0 where
  pub method : Text
  pub headers : List (Text × Text)
  pub body : List ℕ

-- scheme, netloc and path of httpx.URL
pub record UrlParts : Type 0 where
  pub scheme : Text
  pub netloc : Text
  pub path : Text

-- A row of the report of WuppieFuzz.
pub record Row : Type 0 where
  pub path : Json
  pub method : Json
  pub url : Json
  pub status : Option ℕ
  pub error : Json

pub data ExitCode : Type 0 where
  code signal : ℕ → ExitCode

-- How the child process goes. `outputs` is what the two reads gave, with the exit code and the files
-- that it left: those by path, and the rows of the report.
pub data Ending : Type 0 where
  unstartable : Text → Ending
  too_slow : Ending
  outputs : List ℕ → List ℕ → ExitCode → (Text → Option Text) → Option (List Row) → Ending

pub record World : Type 0 where
  -- the configuration of the module
  pub engine : Text
  pub runner_token : Text
  pub allow_private : Bool
  pub max_output : ℕ
  pub max_proxy_body : ℕ
  pub internal_url : Text
  -- the libraries
  pub net : ℕ → Upstream → Net
  pub resolver : Net
  pub reading : ℕ → Reading
  pub ticks_per_second : ℕ
  pub payload_lines : List Text
  pub decode : List ℕ → Text
  pub split_lines : Text → List Text
  pub is_anomaly : Text → Bool
  pub mask : Text → Text
  pub load_json : Text → Option Json
  pub dump_json : Json → Text
  pub str_of : Json → Text
  pub digits : ℕ → Text
  pub quotient : ℕ → ℕ → Text
  pub base64 : Text → Text
  pub urlencode : List (Text × Text) → Text
  pub split_url : Text → UrlParts
  pub describe : ScopeError → Text

-- ProxyJob; the rate, the limit, the count and the time of the last request are a budget, since
-- `take` has the body of `RequestBudget.take`.
pub record ProxyJob : Type 0 where
  pub target_url : Text
  pub allowed_hosts : List Text
  pub request_timeout : ℕ
  pub budget : RequestBudget

abbrev pub proxy_job : World → RunRequest → ProxyJob
proxy_job w request = record {
  target_url = request.target_url;
  allowed_hosts = request.allowed_hosts;
  request_timeout = request.request_timeout;
  budget =
      request_budget request.max_requests
        (w.ticks_per_second * request.rate_limit.denominator / request.rate_limit.numerator);
}

-- PROXY_JOBS, and the number of looks at the world outside.
pub record Server : Type 0 where
  pub jobs : List (Text × ProxyJob)
  pub moment : ℕ

-- not value, of an optional text
abbrev pub is_missing : Option Text → Bool
is_missing none = true
is_missing (some t) = text_eq t []

abbrev pub or_blank : Option Text → Text
or_blank none = []
or_blank (some t) = t

-- The test of `_authenticate`.
unfoldable pub is_authentic : World → Option Text → Bool
is_authentic w value =
    not (
      text_eq w.runner_token []
      || is_missing value
      || not (text_eq w.runner_token (or_blank value)))
