-- ===== src/Orchestrator/Run.antt =====
-- `run`: the stages of a scan in their order, and what ends it.
use api_scanner.Common.{
  ℕ, ◌+◌, Bool, true, false, not, ◌||◌, Option, none, some, List, [], ◌∷◌, ◌++◌, map, if◌then◌else◌,
  length, is_empty,
}
use api_scanner.Common.Text.{Text, codes, text_eq}
use api_scanner.Domain.{FindingDraft}
use api_scanner.Domain.Risk.{calculate_risk}
use api_scanner.Correlation.{correlate_findings}
use api_scanner.Coverage.{Endpoint, ScanEngine, Check}
use api_scanner.Coverage.Calculate.{Coverage, calculate_coverage, is_whole}
use api_scanner.Scope
use api_scanner.Scope.{Net, ScopeGuard, ScopeError, scope_guard, validate}
use api_scanner.Orchestrator.{
  ScanStatus, initializing, discovering, scanning, correlating, reporting, completed, partial,
  cancelled, failed, timeout, Scan, Db, scan_cancelled, scan_timed_out, target_unreachable, raised,
  Result, ok, stop, Exec, ◌>>=◌, ◌>>◌, pure, raise, look, stage, terminate,
}
use api_scanner.Orchestrator.Policy.{
  Settings, Profile, ScanPolicy, EngineName, limits, engine_names,
}
use api_scanner.Orchestrator.Checkpoint.{World, checkpoint}
use api_scanner.Orchestrator.Baselines.{Applied}
use api_scanner.Orchestrator.Engines.{
  Engine, EngineOutcome, Gathered, checks_or_none, apply_baselines, run_engines,
}

-- An endpoint of the inventory: where it is, and the row that is stored for it.
pub record Listed : Type 0 where
  pub base_url : Text
  pub row : Endpoint

-- What `_inventory` returns, with the findings of `analyze_specification` on the document.
pub record Inventory : Type 0 where
  pub endpoints : List Listed
  pub has_document : Bool
  pub static_findings : List FindingDraft

-- What a run is given, and what it calls: the network, the ingestion, the engines, the report writer
-- (each may raise, with the text of its exception), SHA-256, float division and redaction.
pub record Job : Type 0 where
  pub world : World
  pub net : Net
  pub digest : Text → Text
  pub percent : ℕ → ℕ → ℕ
  pub redact : Text → Text
  pub settings : Settings
  pub allow_private_targets : Bool
  pub profile : Profile
  pub policy : ScanPolicy
  pub target : Option Text
  pub allowed_hosts : List Text
  pub describe : ScopeError → Text
  pub unreachable_text : List Text → Text
  pub inventory : ℕ → Result Inventory
  pub identity_count : ℕ
  pub credentials : Result (Unit {0})
  pub engine : EngineName → ℕ → EngineOutcome
  pub write_all : ℕ → Result (List Text)

-- An outside call that returns or raises.
abbrev pub lift : {A : Type 0} → Result A → Exec A
lift r db = (r, db)

module _ (job : Job) where
  -- await guard.validate(url)
  unfoldable pub admit : Text → Exec (Unit {0})
  admit url = do
    now ← look
    elim (validate job.net (scope_guard job.allowed_hosts job.allow_private_targets) now url) [
      | Scope.ok target ↦ pure tt
      | Scope.err e ↦ raise (raised (job.describe e))
    ]

  unfoldable pub require_target : Exec Text
  require_target = elim job.target [
    | none ↦ raise (raised (codes "ValueError: scan target no longer exists"))
    | some url ↦ pure url
  ]

  unfoldable pub initialise : ℕ → Exec (Unit {0})
  unfolding admit require_target
  initialise deadline = do
    stage initializing 5 (codes "validating target")
    url ← require_target
    admit url
    checkpoint job.world deadline

  unfoldable pub add_endpoint : Endpoint → Exec (Unit {0})
  add_endpoint e db = (ok tt, record db { endpoints = db.endpoints ++ e ∷ [] })

  unfoldable pub add_endpoints : List Listed → Exec (Unit {0})
  unfolding admit add_endpoint
  add_endpoints [] = pure tt
  add_endpoints (e ∷ es) = admit e.base_url >>= λ _. (add_endpoint e.row >>= λ _. add_endpoints es)

  -- inventory.endpoints[0] raises if there is none.
  unfoldable pub add_specification : Inventory → Exec (Unit {0})
  add_specification inventory =
      if not inventory.has_document
      then pure tt
      else if is_empty inventory.endpoints
      then raise (raised (codes "IndexError: list index out of range"))
      else λ db. (ok tt, record db { specifications = db.specifications + 1 })

  unfoldable pub discover : ℕ → Exec Inventory
  unfolding add_endpoints add_specification
  discover deadline = do
    stage discovering 15 (codes "building API inventory")
    now ← look
    inventory ← lift (job.inventory now)
    add_endpoints inventory.endpoints
    add_specification inventory
    checkpoint job.world deadline
    pure inventory

  abbrev pub engines : List Engine
  engines = map (λ n. record { name = n; run = job.engine n }) (engine_names job.profile job.policy)

  unfoldable pub scan_engines : ℕ → List FindingDraft → Exec Gathered
  unfolding run_engines
  scan_engines deadline static = do
    lift job.credentials
    stage scanning 30 (codes "running scanner engines")
    run_engines job.world job.percent job.identity_count deadline (length engines) 0 engines
        (record { raw_findings = static; partial_failures = [] })

  unfoldable pub add_findings : List FindingDraft → Exec (Unit {0})
  add_findings raw db = (
    ok tt,
    record db {
      findings =
          db.findings
          ++ map
              (λ c. record {
                correlated = c;
                risk_score = calculate_risk c.finding.severity c.finding.confidence;
              })
              (correlate_findings job.digest raw);
    },
  )

  -- The checks of the first row of the custom engine.
  unfoldable pub custom_checks : List ScanEngine → List Check
  custom_checks [] = []
  custom_checks (e ∷ es) =
      if text_eq e.name (codes "custom") then checks_or_none e.checks else custom_checks es

  unfoldable pub mark_again : Exec Applied
  unfolding custom_checks apply_baselines
  mark_again db = apply_baselines (custom_checks db.engines) db

  unfoldable pub correlate : ℕ → List FindingDraft → Exec (Unit {0})
  unfolding add_findings mark_again
  correlate deadline raw = do
    stage correlating 75 (codes "correlating and deduplicating findings")
    add_findings raw
    mark_again
    checkpoint job.world deadline

  abbrev pub final_status : List Text → Coverage → ScanStatus
  final_status failures coverage =
      if not (is_empty failures) || not (is_whole coverage.assessment.status)
      then partial
      else completed

  -- scan.finished_at and scan.status
  unfoldable pub set_status : ScanStatus → Exec (Unit {0})
  set_status status db =
      (ok tt, record db { scan = record db.scan { status = status; finished = true } })

  unfoldable pub add_reports : List Text → Exec (Unit {0})
  add_reports formats db = (ok tt, record db { reports = db.reports ++ formats })

  unfoldable pub complete_scan : List Text → Coverage → Exec (Unit {0})
  complete_scan failures coverage db = (
    ok tt,
    record db {
      scan = record db.scan {
        progress = 100;
        stage = codes "complete";
        result_summary = some (record {
          endpoint_count = coverage.endpoints.total;
          finding_count = length db.findings;
          coverage = coverage;
          partial_failures = failures;
        });
      };
    },
  )

  abbrev pub coverage_of : Db → Coverage
  coverage_of db = calculate_coverage job.percent db.endpoints db.engines job.identity_count

  unfoldable pub report : List Text → Exec (Unit {0})
  unfolding set_status add_reports complete_scan
  report failures = do
    stage reporting 90 (codes "generating reports")
    coverage ← λ db. (ok (coverage_of db), db)
    set_status (final_status failures coverage)
    now ← look
    formats ← lift (job.write_all now)
    add_reports formats
    complete_scan failures coverage

  -- The `try` block.
  unfoldable pub run_stages : ℕ → Exec (Unit {0})
  unfolding initialise discover scan_engines correlate report
  run_stages deadline = do
    initialise deadline
    inventory ← discover deadline
    gathered ← scan_engines deadline inventory.static_findings
    correlate deadline gathered.raw_findings
    report gathered.partial_failures

  -- The `except` clauses.
  unfoldable pub settle : Result (Unit {0}) → Db → Db
  settle (ok r) db = db
  settle (stop scan_cancelled) db =
      terminate job.redact cancelled (codes "scan cancelled by user") db
  settle (stop scan_timed_out) db =
      terminate job.redact timeout (codes "scan duration limit reached") db
  settle (stop (target_unreachable reasons)) db =
      terminate job.redact failed (job.unreachable_text reasons) db
  settle (stop (raised text)) db = terminate job.redact failed text db

  abbrev pub was_cancelled : Scan → Bool
  was_cancelled scan = scan.cancel_requested || (elim scan.status [ cancelled ↦ true | _ ↦ false ])

  -- deadline = time.monotonic() + self._limits(scan).max_duration
  abbrev pub deadline_of : Db → ℕ
  deadline_of db =
      job.world.time db.moment + (limits job.settings job.profile job.policy).max_duration

  -- The run of a scan that is not already cancelled.
  unfoldable pub run_active : Db → Db
  unfolding run_stages settle
  run_active db = let r = run_stages (deadline_of db) db in settle r.0 r.1

  -- Orchestrator.run
  unfoldable pub run : Option Db → Option Db
  unfolding run_active
  run none = none
  run (some db) = some (if was_cancelled db.scan then db else run_active db)
