-- ===== src/Orchestrator/Tests.antt =====
-- Runs of the parts of the orchestrator.
use api_scanner.Common.{
  ℕ, suc, ◌+◌, ◌*◌, ◌≤◌, Bool, true, false, ◌≡◌, refl, none, some, List, [], ◌∷◌, Memᴰ, leb, ◌==◌,
  arith, map, ◌⊎◌,
}
use api_scanner.Common.Text.{Text, codes}
use api_scanner.Coverage.{Endpoint, TestStatus, Check, CheckStatus, tested_count, EngineStatus}
use api_scanner.Scope.{Net, SplitUrl, absent, https}
use api_scanner.Orchestrator.{queued, completed, Scan, Db, ok}
use api_scanner.Orchestrator.Engines.{EngineResult, returned}
use api_scanner.Orchestrator.Run.{Job, run, run_active}
use api_scanner.Orchestrator.Terminal.{IsReported, IsEnded, IsWhole, run-ends, run-IsWhole}
use api_scanner.Orchestrator.Policy.{
  Profile, EngineName, Settings, ScanPolicy, ScanLimits, limits, requested_engines, engine_names,
  limits_bounded, CustomFirst, engine_names-CustomFirst,
}
use api_scanner.Orchestrator.Checkpoint.{World, checkpoint, Ends, checkpoint-Ends}
use api_scanner.Orchestrator.Baselines.{
  Applied, apply_endpoint_baselines, AllMarked, apply_endpoint_baselines-AllMarked,
}

abbrev settings : Settings
settings = record {
  default_rate_limit = 5000;
  max_concurrency = 10;
  request_timeout = 15000;
  max_requests = 10000;
  scan_timeout = 3600;
}

abbrev policy : ScanPolicy
policy = record {
  rate_limit = some 9000;
  concurrency = none;
  request_timeout = none;
  max_requests = some 0;
  max_duration = some 60;
  enabled_engines = some (EngineName.zap ∷ EngineName.custom ∷ []);
}

-- Each look is two ticks later; the scan is paused at the first two.
abbrev world : World
world = record {
  mask = λ t. t;
  time = λ n. 2 * n;
  cancel_requested = λ _. false;
  pause_requested = λ n. leb n 1;
}

abbrev pub scan : Scan
scan = record {
  status = queued;
  progress = 0;
  stage = [];
  error = none;
  cancel_requested = false;
  pause_requested = false;
  started = false;
  finished = false;
  result_summary = none;
}

abbrev pub db : Db
db = record {
  scan = scan;
  endpoints = [];
  specifications = 0;
  engines = [];
  findings = [];
  reports = [];
  log = [];
  moment = 0;
}

checkpoint-Ends_example : Ends world 9 0 (checkpoint world 9 db).0
checkpoint-Ends_example = checkpoint-Ends world 9 db (λ n h. omega arith)

abbrev endpoints : List Endpoint
endpoints =
    record {
      endpoint_id = codes "a";
      source = codes "openapi";
      auth_required = false;
      test_status = TestStatus.pending;
      skip_reason = none;
    }
    ∷ []

abbrev checks : List Check
checks =
    record {
      endpoint_id = codes "a";
      check = some (codes "baseline");
      status = CheckStatus.tested;
      request_count = 1;
      reason = none;
    }
    ∷ []

apply_endpoint_baselines-AllMarked_example :
    let a : Applied = apply_endpoint_baselines checks endpoints in
    AllMarked checks endpoints a.endpoints × (a.reached ≡ tested_count a.endpoints)
apply_endpoint_baselines-AllMarked_example = apply_endpoint_baselines-AllMarked checks endpoints

-- A host name is its own URL, with one public address.
abbrev net : Net
net = record {
  urlsplit = λ url. some (record {
    scheme = https;
    username = none;
    password = none;
    hostname = some url;
    port = absent;
    netloc = url;
    path = [];
    query = [];
  });
  urlunsplit = λ scheme netloc path query. netloc;
  urljoin = λ base location. location;
  idna = λ name. some name;
  is_ip = λ _. false;
  is_global = λ _. true;
  decode = λ headers body. some body;
  getaddrinfo = λ _ host port. some (codes "1" ∷ []);
  send = λ n url. none;
}

abbrev custom_result : EngineResult
custom_result = record {
  engine = codes "custom";
  status = EngineStatus.completed;
  findings = [];
  checks = some checks;
  request_count = 1;
  reason = none;
}

abbrev pub job : Job
job = record {
  world = record {
    mask = λ t. t;
    time = λ n. n;
    cancel_requested = λ _. false;
    pause_requested = λ _. false;
  };
  net = net;
  digest = λ t. t;
  percent = λ a b. 0;
  redact = λ t. [];
  settings = settings;
  allow_private_targets = false;
  profile = Profile.aggressive;
  policy = record policy { enabled_engines = none };
  target = some (codes "h");
  allowed_hosts = codes "h" ∷ [];
  describe = λ _. [];
  unreachable_text = λ _. [];
  inventory = λ _. ok (record {
    endpoints = map (λ e. record { base_url = codes "h"; row = e }) endpoints;
    has_document = false;
    static_findings = [];
  });
  identity_count = 0;
  credentials = ok tt;
  engine = λ _ _. returned custom_result;
  write_all = λ _. ok (codes "json" ∷ []);
}

run-ends_example :
    (after : Db) × (run job (some db) ≡ some after)
    × (IsReported job [] after ⊎ IsEnded job [] after)
run-ends_example = run-ends job db refl refl

ends_completed : (run_active job db).scan.status ≡ completed
unfolding run_active api_scanner.Orchestrator.stage api_scanner.Scope.validate
    api_scanner.Scope.parse_target api_scanner.Common.Text.text_eq api_scanner.Scope.authorised_host
    api_scanner.Scope.scope_guard api_scanner.Scope.host_matches
    api_scanner.Scope.matches_normalised api_scanner.Common.Text.starts_with
    api_scanner.Scope.normalise api_scanner.Common.Text.rstrip api_scanner.Common.Text.lower
    api_scanner.Scope.effective_port api_scanner.Scope.reachable_addresses api_scanner.Scope.resolve
    api_scanner.Scope.is_forbidden_ip api_scanner.Common.Sorting.sorted_set
    api_scanner.Orchestrator.Checkpoint.checkpoint
    api_scanner.Orchestrator.Checkpoint.checkpoint_loop api_scanner.Orchestrator.Engines.run_engines
    api_scanner.Orchestrator.Policy.engine_names api_scanner.Orchestrator.Policy.limits
    api_scanner.Orchestrator.Engines.check_baselines
    api_scanner.Orchestrator.Engines.apply_baselines
    api_scanner.Orchestrator.Baselines.apply_endpoint_baselines
    api_scanner.Coverage.Calculate.calculate_coverage api_scanner.Coverage.assessment_status
    tested_count api_scanner.Coverage.check_summary api_scanner.Coverage.security_checks
    api_scanner.Coverage.check_names api_scanner.Coverage.check_matrix
ends_completed = refl

runs : run job (some db) ≡ some (run_active job db)
unfolding run
runs = refl

run-IsWhole_example : IsWhole job (run_active job db)
run-IsWhole_example = run-IsWhole job db (run_active job db) refl refl runs ends_completed
