-- ===== src/Orchestrator/Stages.antt =====
-- The order of the stages of a run, and the progress that they report.
use api_scanner.Common.{ℕ, ◌≤◌, ◌≡◌, List, [], ◌∷◌, ◌++◌, arith}
use api_scanner.Common.Text.{Text}
use api_scanner.Orchestrator.{
  ScanStatus, queued, initializing, discovering, scanning, correlating, reporting, Db, Result, ok,
  stop, Exec, stage,
}
use api_scanner.Orchestrator.Triple.{Post, Triple, IsQuiet}

-- One stage after another.
pub data Next : ScanStatus → ScanStatus → Type 0 where
  started : Next queued initializing
  validated : Next initializing discovering
  inventoried : Next discovering scanning
  engine_done : Next scanning scanning
  all_done : Next scanning correlating
  correlated : Next correlating reporting

-- A log of stages in their order, with the last stage and its progress, which never falls.
pub data Trail : List (ScanStatus × ℕ) → ScanStatus → ℕ → Type 0 where
  start : Trail [] queued 0
  move :
      {log : List (ScanStatus × ℕ)} {s t : ScanStatus} {p : ℕ}
      → Trail log s p
      → Next s t
      → (q : ℕ) → p ≤ q
      → Trail (log ++ (t, q) ∷ []) t q

-- The run has come to the stage `s` with a progress of at most `limit`; the reports are `old`.
pub record At (s : ScanStatus) (limit : ℕ) (old : List Text) (db : Db) : Type 0 where
  pub progress : ℕ
  pub path : Trail db.log s progress
  pub bounded : progress ≤ limit
  pub reports : db.reports ≡ old

-- The same, at any stage.
pub record Stopped (old : List Text) (db : Db) : Type 0 where
  pub status : ScanStatus
  pub stop_at : At status 90 old db

module _ {s : ScanStatus} {old : List Text} where
  pub At-Stopped : {limit : ℕ} {db : Db} → At s limit old db → limit ≤ 90 → Stopped old db
  At-Stopped a h = record {
    status = s;
    stop_at = record {
      progress = a.progress;
      path = a.path;
      bounded = omega (arith, a.bounded);
      reports = a.reports;
    };
  }

  pub At-raise : {m n : ℕ} {db : Db} → At s m old db → m ≤ n → At s n old db
  At-raise a h = record {
    progress = a.progress;
    path = a.path;
    bounded = omega (arith, a.bounded);
    reports = a.reports;
  }

  pub quiet-At :
      {A : Type 0} (m : Exec A) (limit : ℕ)
      → IsQuiet m
      → limit ≤ 90
      → Triple (At s limit old) m (λ _. At s limit old) (Stopped old)
  quiet-At m limit q h = record {
    at = λ db a. result (m db).0 (m db).1 (q.log db) (q.reports db) a;
  }
    where
      moved :
          (db after : Db)
          → after.log ≡ db.log
          → after.reports ≡ db.reports
          → At s limit old db
          → At s limit old after
      moved db after l r a = record {
        progress = a.progress;
        path = rw l a.path;
        bounded = a.bounded;
        reports = cc (r, a.reports);
      }

      result :
          {A : Type 0} (r : Result A) {db : Db} (after : Db)
          → after.log ≡ db.log
          → after.reports ≡ db.reports
          → At s limit old db
          → Post (λ _. At s limit old) (Stopped old) r after
      result (ok v) {db} after l r a = moved db after l r a
      result (stop e) {db} after l r a = At-Stopped (moved db after l r a) h

  pub stage-At :
      {t : ScanStatus} (limit q : ℕ) (name : Text)
      → Next s t
      → limit ≤ q
      → Triple (At s limit old) (stage t q name) (λ _. At t q old) (Stopped old)
  unfolding stage
  stage-At limit q name n h = record {
    at = λ db a. record {
      progress = q;
      path = move a.path n q (omega (arith, a.bounded));
      bounded = omega arith;
      reports = a.reports;
    };
  }
