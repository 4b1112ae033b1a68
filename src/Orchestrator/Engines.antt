-- ===== src/Orchestrator/Engines.antt =====
-- The loop of `run` over the engines. What an engine does is an input: it returns a result, runs
-- into the deadline, or raises an exception.
use api_scanner.Common.{
  ℕ, suc, ◌+◌, ◌*◌, ◌/◌, max, Bool, true, false, not, ◌&&◌, ◌==◌, Option, none, some, List, [], ◌∷◌,
  ◌++◌, if◌then◌else◌, length, is_empty, take, map,
}
use mathlib.Core.Option
use api_scanner.Common.Text.{Text, codes}
use api_scanner.Domain.{FindingDraft}
use api_scanner.Coverage.{Check, EngineStatus, failed, timeout}
use api_scanner.Coverage.Calculate.{calculate_coverage}
use api_scanner.Orchestrator.{
  scanning, target_unreachable, ok, Exec, ◌>>=◌, ◌>>◌, pure, raise, look, stage,
}
use api_scanner.Orchestrator.Policy.{EngineName, custom, zap, nuclei, wfuzz, wuppiefuzz, is_custom}
use api_scanner.Orchestrator.Checkpoint.{World, checkpoint}
use api_scanner.Orchestrator.Baselines.{Applied, apply_endpoint_baselines}

-- EngineResult of app/domain.py; `checks` as in `ScanEngine`.
pub record EngineResult : Type 0 where
  pub engine : Text
  pub status : EngineStatus
  pub findings : List FindingDraft
  pub checks : Option (List Check)
  pub request_count : ℕ
  pub reason : Option Text

pub data EngineOutcome : Type 0 where
  returned : EngineResult → EngineOutcome
  timed_out : EngineOutcome
  crashed : Text → EngineOutcome

pub record Engine : Type 0 where
  pub name : EngineName
  pub run : ℕ → EngineOutcome

unfoldable pub engine_text : EngineName → Text
engine_text custom = codes "custom"
engine_text zap = codes "zap"
engine_text nuclei = codes "nuclei"
engine_text wfuzz = codes "wfuzz"
engine_text wuppiefuzz = codes "wuppiefuzz"

-- The `try` around one engine.
unfoldable pub outcome_result : EngineName → EngineOutcome → EngineResult
unfolding engine_text
outcome_result name (returned r) = r
outcome_result name timed_out = record {
  engine = engine_text name;
  status = timeout;
  findings = [];
  checks = none;
  request_count = 0;
  reason = some (codes "scan deadline reached");
}
outcome_result name (crashed kind) = record {
  engine = engine_text name;
  status = failed;
  findings = [];
  checks = none;
  request_count = 0;
  reason = some (codes "unhandled engine error: " ++ kind);
}

abbrev pub has_failed : EngineStatus → Bool
has_failed failed = true
has_failed timeout = true
has_failed _ = false

abbrev status_text : EngineStatus → Text
status_text timeout = codes "TIMEOUT"
status_text _ = codes "FAILED"

abbrev reason_text : EngineResult → Text
reason_text r = elim r.reason [
  | none ↦ status_text r.status
  | some t ↦ if is_empty t then status_text r.status else t
]

-- `raw_findings` and `partial_failures` so far.
pub record Gathered : Type 0 where
  pub raw_findings : List FindingDraft
  pub partial_failures : List Text

unfoldable pub gather : EngineName → EngineResult → Gathered → Gathered
unfolding engine_text
gather name r g = record {
  raw_findings = g.raw_findings ++ r.findings;
  partial_failures =
      if has_failed r.status
      then g.partial_failures ++ (engine_text name ++ (codes ": " ++ reason_text r)) ∷ []
      else g.partial_failures;
}

-- redact(...) of a check record, whose keys are no secrets; `mask` leaves the words of a status alone.
unfoldable pub redacted_check : (Text → Text) → Check → Check
redacted_check mask c = record c {
  endpoint_id = mask c.endpoint_id;
  check = Option.map mask c.check;
  reason = Option.map mask c.reason;
}

-- Orchestrator._persist_engine; `mask` is what `redact` does to a text.
unfoldable pub persist_engine : (Text → Text) → EngineResult → Exec (Unit {0})
unfolding redacted_check
persist_engine mask r db = (
  ok tt,
  record db {
    engines =
        db.engines
        ++ record {
          name = r.engine;
          status = r.status;
          request_count = r.request_count;
          reason = r.reason;
          checks = Option.map (map (redacted_check mask)) r.checks;
        }
          ∷ [];
  },
)

abbrev pub checks_or_none : Option (List Check) → List Check
checks_or_none none = []
checks_or_none (some checks) = checks

unfoldable pub apply_baselines : List Check → Exec Applied
apply_baselines checks db =
    let a = apply_endpoint_baselines checks db.endpoints in
    (ok a, record db { endpoints = a.endpoints })

-- 30 + int(40 * ((index + 1) / max(len(engines), 1)))
unfoldable pub engine_progress : ℕ → ℕ → ℕ
engine_progress index total = 30 + 40 * (index + 1) / max total 1

module _ (w : World) (percent : ℕ → ℕ → ℕ) (identity_count deadline : ℕ) where
  -- scan.result_summary of a target that cannot be reached
  unfoldable pub note_unreachable : List Text → Exec (Unit {0})
  note_unreachable failures db = (
    ok tt,
    record db {
      scan = record db.scan {
        result_summary = some (record {
          endpoint_count = length db.endpoints;
          finding_count = 0;
          coverage = calculate_coverage percent db.endpoints db.engines identity_count;
          partial_failures = failures;
        });
      };
    },
  )

  -- if endpoints and tested == 0: ... raise TargetUnreachable
  unfoldable pub require_reachable : List Text → Applied → Exec (Unit {0})
  unfolding note_unreachable
  require_reachable failures a =
      if not (is_empty a.endpoints) && a.reached == 0
      then (do note_unreachable failures; raise (target_unreachable (take 3 a.reasons)))
      else pure tt

  -- if engine.name == "custom": ...
  unfoldable pub check_baselines : EngineName → EngineResult → List Text → Exec (Unit {0})
  unfolding apply_baselines require_reachable
  check_baselines name r failures =
      if is_custom name
      then (do a ← apply_baselines (checks_or_none r.checks); require_reachable failures a)
      else pure tt

  -- The body of the loop.
  unfoldable pub run_engine : ℕ → ℕ → Engine → Gathered → Exec Gathered
  unfolding outcome_result gather persist_engine check_baselines engine_progress
  run_engine total index engine g = do
    checkpoint w deadline
    now ← look
    let r = outcome_result engine.name (engine.run now)
    persist_engine w.mask r
    check_baselines engine.name r (gather engine.name r g).partial_failures
    stage scanning (engine_progress index total) (codes "finished " ++ engine_text engine.name)
    pure (gather engine.name r g)

  unfoldable pub run_engines : ℕ → ℕ → List Engine → Gathered → Exec Gathered
  unfolding run_engine
  run_engines total index [] g = pure g
  run_engines total index (e ∷ es) g =
      run_engine total index e g >>= λ g'. run_engines total (suc index) es g'
