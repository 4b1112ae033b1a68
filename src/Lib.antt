-- ===== src/Lib.antt =====
-- API Scanner: the scanning core of the service under app/.
--
-- A scan is a row that a worker runs: `Orchestrator.run` (app/services/orchestrator.py) admits the
-- target through the scope guard, builds an inventory of endpoints, runs the engines one after
-- another, correlates their findings, computes the coverage and writes the reports. This library
-- models these parts and how they call each other.
--
-- The parts and their files:
--   Scope         app/security/scope.py: `_host_matches` (host_matches), `ScopeGuard.validate`
--                 (validate, in the steps parse_target, authorised_host, effective_port and
--                 reachable_addresses) and `ScopedHttpClient.request` (request, request_loop).
--                 Scope/Hosts, Scope/Guard and Scope/Client have the theorems.
--   Domain        app/domain.py and app/risk/scoring.py: findings, `fingerprint`, `calculate_risk`.
--   Correlation   app/correlation/service.py: `correlate_findings`, in the steps group_from (the
--                 dict of groups), merge (the representative) and a stable sort.
--   Coverage      app/coverage/service.py: `calculate_coverage`, in Coverage and Coverage/Calculate.
--   Budget        `RequestBudget` of app/engines/custom.py.
--   Orchestrator  app/services/orchestrator.py. The rows that a run writes are the record Db; an
--                 action is a function from Db to a result or an exception, and a Db, so what is
--                 written before an exception stays. Orchestrator/Policy has `_limits` and
--                 `_engines`, Orchestrator/Checkpoint `_checkpoint`, Orchestrator/Baselines
--                 `_apply_endpoint_baselines`, Orchestrator/Engines the loop over the engines,
--                 Orchestrator/Run the stages and the `except` clauses. Orchestrator/Triple has
--                 the rules for what holds before and after an action, which Quiet, Stages, Trace
--                 and Terminal apply.
--   Custom        app/engines/custom.py with app/security_tests/input_validation.py,
--                 app/security/auth.py and app/analysis/authorization.py. An action is a function
--                 from a Session (the budget, the targets that were sent to, the looks at the
--                 world) to a result or an exception, and a Session. Custom/Session has `_send`;
--                 Schema, Points and Requests build the requests (`build_prepared_request`);
--                 Evidence has the detection predicates; Checks the records of checks and
--                 findings; Passive, Payloads, Probe and Active the tests of
--                 `_test_endpoint` and `_input_validation_tests`; Authorization
--                 `_authorization_tests`; Testing `_test_endpoint`; Execute `execute`, `validate`
--                 and the `run` of app/engines/base.py. Logic has the rules for what a run returns
--                 and keeps, which Limits (each request goes through the budget and the guard)
--                 and the modules called Reports (each check has its record) apply; Laws, Outcomes
--                 and Contract put them together for `execute` and `run`, and Exhausted and
--                 Answered are about the baseline request of an endpoint.
--   Control       `_control` of app/api/routes.py: cancel, pause and resume.
--   Oast          app/oast.py: the collector of out-of-band callbacks, over an interface to Redis.
--   Admission     `effective_allowed_hosts` of app/services/scan_service.py.
--   Redaction     `redact`, `redact_known` and `redact_known_values` of app/core/logging.py, on the
--                 JSON values of Json.
--   Runner        engine_runner/main.py, the process in a container of its own that runs an external
--                 tool: `run` (Runner/Run: refusal, prepare, register, execute) with the proxy job
--                 that it registers and pops, `wuppie_proxy` (Runner/Proxy), the command lines
--                 (Runner/Commands, Runner/Credentials), the rewriting of a specification
--                 (Runner/Rewrite) and the reading of events (Runner/Events). The traffic while the
--                 tool runs is a list of events: requests to the proxy, and jobs of other runs that
--                 come and go. Relayed, Tracked, Spending, Closing, Servers and Refusal have the
--                 theorems.
--   Ingestion     app/ingestion: `parse_api_document` (Ingestion/Document, with References, Servers
--                 and Operations), `parse_postman_collection` (Ingestion/Postman) and
--                 `discover_inventory` (Ingestion/Discovery), on JSON values. An IngestionError and
--                 any other exception are two outcomes. Ingestion/Sources has `_inventory` of the
--                 orchestrator, which chooses among them. Endpoints, Inventory, Distinct, Resolved,
--                 Posted, Found, Discovered and Obtained have the theorems.
--   Common, Json  the shared names, lemmas on lists, texts, sorting and keyed lists, and a type of
--                 JSON values.
-- The tests of a part, in its module Tests, apply each theorem at a concrete input.
--
-- What is a parameter: URL parsing, IDNA, IP addresses, the resolver and HTTP are the record Net;
-- the clock and the flags that the API sets are the record World, read at successive moments;
-- SHA-256 is `digest`; what the custom engine calls (HTTP, the callback collector, `re`, `difflib`,
-- `json`, `html`, `urllib`) is the record Web; the ingestion, the engines, decryption, the report
-- writer and redaction are fields of Job (Custom/Contract is about the custom engine in that
-- place); what the engine runner calls, the child process included, is the record World of Runner;
-- the decoders of a document are the record Reader; Redis is an interface with its documented
-- laws. What `redact` does to a text of a check record is the field `mask` of the orchestrator's World.
-- A theorem that needs something of one of them names it as a hypothesis.
--
-- Choices: texts are lists of code points, with the case of ASCII letters. Floats are not modelled:
-- risk scores are in tenths (the 15 products of the tables, rounded), rates and times in ticks, and
-- percentages are a parameter `percent`. `while True` of `_checkpoint` is recursion with one
-- round more than the ticks to the deadline, which is enough when a pause takes time; the redirect
-- loop has the rounds of its `range`. The custom engine tests the endpoints one after the other,
-- where the source interleaves them under a semaphore; the depth of a sample has the nine levels of
-- the source's bound, and the resolution of references the thirty-one levels of its own. The rate of
-- a run is a fraction and its timeout in milliseconds. A schema of the wrong shape
-- raises an exception, as in the source, and so does a file that the runner cannot write. The
-- exceptions of a request are those that the engines catch: httpx.InvalidURL, which they do not, is
-- left out. A response whose content is decoded a second time, as `httpx.Response` does it, is
-- `Net.decode`.
--
-- Not modelled: the clients of the external engines (app/engines/external.py), the other API
-- routes, the static rules on a specification, reporting and configuration; the resource limits of
-- a child process; Celery, SQLAlchemy and FastAPI glue. Of a
-- finding's rows, the evidence and source rows are left out, and of an endpoint's row the fields
-- that no later step reads.
pub mod Common
pub mod Json
pub mod Domain
pub mod Correlation
pub mod Coverage
pub mod Orchestrator
pub mod Scope
pub mod Budget
pub mod Runner
pub mod Ingestion
pub mod Custom
pub mod Admission
pub mod Redaction
pub mod Control
pub mod Oast
