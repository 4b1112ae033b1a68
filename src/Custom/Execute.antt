-- ===== src/Custom/Execute.antt =====
-- `execute` and `validate` of app/engines/custom.py, and `run` of app/engines/base.py. The
-- endpoints are tested one after the other.
use api_scanner.Common.{
  Bool, true, false, not, ◌&&◌, Option, none, some, List, [], ◌∷◌, ◌++◌, map, select, take,
  if◌then◌else◌, is_empty,
}
use api_scanner.Common.Text.{Text, codes, text_eq, join}
use api_scanner.Common.Sorting.{is_in}
use api_scanner.Budget.{request_budget}
use api_scanner.Coverage.{CheckStatus, EngineStatus, completed, failed, skipped}
use api_scanner.Orchestrator.Engines.{EngineResult, EngineOutcome, returned, crashed}
use api_scanner.Custom.{Context, Web}
use api_scanner.Custom.Session
use api_scanner.Custom.Session.{
  Session, Result, Exec, ◌>>=◌, ◌>>◌, pure, attempt, tried, for_each, send_prepared,
}
use api_scanner.Custom.Checks.{CheckRecord, Tested, join_tested, joined}
use api_scanner.Custom.Authorization.{test_authorization}
use api_scanner.Custom.Testing.{test_endpoint}

-- The findings of the batches that ended, the errors of those that did not.
abbrev pub batch : Result Tested → Tested
batch (Session.failed f) = record { findings = []; checks = [] }
batch (Session.ok t) = t

abbrev pub batch_error : Result Tested → List Text
batch_error (Session.failed f) = f.detail ∷ []
batch_error (Session.ok t) = []

abbrev pub errors_of : List (Result Tested) → List Text
errors_of [] = []
errors_of (r ∷ rs) = batch_error r ++ errors_of rs

-- What `execute` has when it comes to its status.
pub record Gathered : Type 0 where
  pub errors : List Text
  pub tested : Tested

abbrev pub is_baseline : CheckRecord → Bool
is_baseline c = elim c.row.check [ none ↦ false | some name ↦ text_eq name (codes "baseline") ]

abbrev pub has_passed : CheckRecord → Bool
has_passed c = elim c.row.status [ CheckStatus.tested ↦ true | _ ↦ false ]

abbrev reasons : List CheckRecord → List Text
reasons [] = []
reasons (c ∷ cs) = elim c.row.reason [
  | none ↦ reasons cs
  | some t ↦ if is_empty t then reasons cs else t ∷ reasons cs
]

-- list(dict.fromkeys(...)), with the texts seen so far
abbrev distinct : List Text → List Text → List Text
distinct seen [] = []
distinct seen (t ∷ ts) = if is_in t seen then distinct seen ts else t ∷ distinct (t ∷ seen) ts

module _ (g : Gathered) where
  abbrev pub baseline_checks : List CheckRecord
  baseline_checks = select is_baseline g.tested.checks

  unfoldable pub target_unreachable : Bool
  target_unreachable =
      not (is_empty baseline_checks) && is_empty (select has_passed baseline_checks)

  abbrev only_errors : Bool
  only_errors = not (is_empty g.errors) && is_empty g.tested.findings

  -- The status and the reason of the result.
  unfoldable pub concluded : EngineStatus × Option Text
  unfolding target_unreachable
  concluded =
      if target_unreachable
      then (
        failed,
        some (
            codes "target endpoint baselines failed: "
            ++ join (codes "; ") (take 3 (distinct [] (reasons baseline_checks)))),
      )
      else if only_errors
      then (failed, some (join (codes "; ") (take 3 g.errors)))
      else (completed, none)

module _ (w : Web) (context : Context) where
  abbrev pub start : Session
  start = record {
    budget = request_budget context.limits.max_requests (w.interval context.limits.rate_limit);
    sent = [];
    moment = 0;
  }

  unfoldable pub gather : Exec Gathered
  unfolding test_endpoint test_authorization
  gather = for_each (λ e. tried (test_endpoint w context e)) context.endpoints >>= λ rs.
      (for_each (λ e. test_authorization w context e) context.endpoints >>= λ auth. pure (record {
        errors = errors_of rs;
        tested = join_tested (joined (map batch rs)) (joined auth);
      }))

  abbrev pub result_of : Result Gathered × Session → EngineOutcome
  result_of (Session.failed f, s) = crashed f.kind
  result_of (Session.ok g, s) = returned (record {
    engine = codes "custom";
    status = (concluded g).0;
    findings = g.tested.findings;
    checks = some (map (λ c. c.row) g.tested.checks);
    request_count = s.budget.count;
    reason = (concluded g).1;
  })

  -- execute
  unfoldable pub execute : EngineOutcome
  unfolding gather concluded
  execute = result_of (gather start)

  -- validate
  unfoldable pub is_valid : Bool × Option Text
  is_valid =
      if is_empty context.endpoints
      then (false, some (codes "no endpoints available"))
      else (true, none)

  abbrev pub skipped_result : Option Text → EngineResult
  skipped_result reason = record {
    engine = codes "custom";
    status = skipped;
    findings = [];
    checks = none;
    request_count = 0;
    reason = reason;
  }

  -- ScannerEngine.run: the custom engine has no prepare, normalize, collect_results or cleanup.
  unfoldable pub run : EngineOutcome
  unfolding is_valid execute
  run = if is_valid.0 then execute else returned (skipped_result is_valid.1)
