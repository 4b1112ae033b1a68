-- ===== src/Orchestrator.antt =====
-- `Orchestrator` of app/services/orchestrator.py: the run of one scan. This file has the rows of the
-- database that a run writes, and the actions over them; the children have the parts of `run`.
pub mod Policy
pub mod Checkpoint
pub mod Baselines
pub mod Engines
pub mod Run
pub mod Triple
pub mod Quiet
pub mod Stages
pub mod Trace
pub mod Terminal
pub mod Tests
use api_scanner.Common.{
  ℕ, suc, Bool, true, false, Option, none, some, List, [], ◌∷◌, ◌++◌, if◌then◌else◌,
}
use api_scanner.Common.Text.{Text, codes}
use api_scanner.Correlation.{CorrelatedFinding}
use api_scanner.Coverage.{Endpoint, ScanEngine}
use api_scanner.Coverage.Calculate.{Coverage}

-- ScanStatus of app/models/database.py
pub data ScanStatus : Type 0 where
  queued initializing discovering scanning correlating reporting : ScanStatus
  completed partial paused failed cancelled timeout : ScanStatus

-- {"COMPLETED", "PARTIAL", "FAILED", "CANCELLED", "TIMEOUT"}
abbrev pub is_terminal : ScanStatus → Bool
is_terminal completed = true
is_terminal partial = true
is_terminal failed = true
is_terminal cancelled = true
is_terminal timeout = true
is_terminal _ = false

-- scan.result_summary, as far as `run` sets it itself.
pub record Summary : Type 0 where
  pub endpoint_count : ℕ
  pub finding_count : ℕ
  pub coverage : Coverage
  pub partial_failures : List Text

-- A row of `scans`; `started` and `finished` say that the time stamps are set.
pub record Scan : Type 0 where
  pub status : ScanStatus
  pub progress : ℕ
  pub stage : Text
  pub error : Option Text
  pub cancel_requested : Bool
  pub pause_requested : Bool
  pub started : Bool
  pub finished : Bool
  pub result_summary : Option Summary

-- A row of `findings`, with the risk score that `run` computes.
pub record Finding : Type 0 where
  pub correlated : CorrelatedFinding
  pub risk_score : ℕ

-- The rows of one scan, the `scan_stage` lines of the log, and the number of times that the run has
-- looked at the world outside.
pub record Db : Type 0 where
  pub scan : Scan
  pub endpoints : List Endpoint
  pub specifications : ℕ
  pub engines : List ScanEngine
  pub findings : List Finding
  pub reports : List Text
  pub log : List (ScanStatus × ℕ)
  pub moment : ℕ

-- The exceptions that end a run.
pub data Stop : Type 0 where
  scan_cancelled scan_timed_out : Stop
  target_unreachable : List Text → Stop
  raised : Text → Stop

pub data Result (A : Type 0) : Type 0 where
  ok : A → Result A
  stop : Stop → Result A

-- What a run has written when it raises stays written: `_terminate` commits it.
abbrev pub Exec : Type 0 → Type 0
Exec A = Db → Result A × Db

abbrev pub continue : {A B : Type 0} → Result A → (A → Exec B) → Exec B
continue (ok a) f db = f a db
continue (stop e) f db = (stop e, db)

infixl 5 ◌>>=◌ ◌>>◌
abbrev pub ◌>>=◌ : {A B : Type 0} → Exec A → (A → Exec B) → Exec B
◌>>=◌ m f db = continue (m db).0 f (m db).1

abbrev pub ◌>>◌ : {A B : Type 0} → Exec A → Exec B → Exec B
m >> k = m >>= λ _. k

abbrev pub pure : {A : Type 0} → A → Exec A
pure a db = (ok a, db)

abbrev pub raise : {A : Type 0} → Stop → Exec A
raise e db = (stop e, db)

-- if test: raise
abbrev pub raise_if : Bool → Stop → Exec (Unit {0})
raise_if true e = raise e
raise_if false e = pure tt

-- One more look at the world outside.
abbrev pub look : Exec ℕ
look db = (ok db.moment, record db { moment = suc db.moment })

-- Orchestrator._stage
unfoldable pub stage : ScanStatus → ℕ → Text → Exec (Unit {0})
stage status progress name db = (
  ok tt,
  record db {
    scan = record db.scan { status = status; progress = progress; stage = name; started = true };
    log = db.log ++ (status, progress) ∷ [];
  },
)

-- status.value.lower()
abbrev pub stage_name : ScanStatus → Text
stage_name cancelled = codes "cancelled"
stage_name timeout = codes "timeout"
stage_name failed = codes "failed"
stage_name _ = []

-- Orchestrator._terminate; `redact` is that of app/core/logging.py.
unfoldable pub terminate : (Text → Text) → ScanStatus → Text → Db → Db
terminate redact status error db = record db {
  scan = record db.scan {
    status = status;
    stage = stage_name status;
    error = some (redact error);
    finished = true;
  };
}
