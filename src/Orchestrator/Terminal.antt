-- ===== src/Orchestrator/Terminal.antt =====
-- How a run ends: with a report, or with the row of an error.
use mathlib.Core.Path.{subst}
use api_scanner.Common.{
  sym, ap, ◌∙◌, ℕ, ◌<◌, length, All, ◌≡◌, ◌⊎◌, inl, inr, refl, Bool, true, false, Bool-cases, some,
  List, [], ◌∷◌, ◌++◌, arith, is_empty,
}
use api_scanner.Common.Text.{Text}
use api_scanner.Coverage.{AssessmentStatus, complete, is_tested, check_matrix}
use api_scanner.Coverage.Calculate.{Coverage, is_whole, calculate_coverage, assessment, status_of}
use api_scanner.Coverage.Assessment.{AllSettled, assessment-complete_iff}
use api_scanner.Orchestrator.{
  ScanStatus, queued, correlating, reporting, completed, partial, cancelled, failed, timeout,
  Summary, Db, Stop, scan_cancelled, scan_timed_out, target_unreachable, raised, Result, ok, stop,
  stage, terminate,
}
use api_scanner.Orchestrator.Run.{
  Job, report, run_stages, settle, run_active, final_status, coverage_of, set_status, add_reports,
  complete_scan, deadline_of, was_cancelled, run,
}
use api_scanner.Orchestrator.Triple.{Post, Triple, >>=-Triple}
use api_scanner.Orchestrator.Stages.{Trail, At, Stopped, correlated, move, start}
use api_scanner.Orchestrator.Trace.{initialise-At, discover-At, scan_engines-At, correlate-At}

-- The status that goes with a summary.
pub data IsFinal (s : Summary) : ScanStatus → Type 0 where
  whole : s.partial_failures ≡ [] → s.coverage.assessment.status ≡ complete → IsFinal s completed
  engine_failed : is_empty s.partial_failures ≡ false → IsFinal s partial
  gap : is_whole s.coverage.assessment.status ≡ false → IsFinal s partial

is_whole_complete : (a : AssessmentStatus) → is_whole a ≡ true → a ≡ complete
is_whole_complete a h = ground arith

is_empty_nil : (ts : List Text) → is_empty ts ≡ true → ts ≡ []
is_empty_nil [] h = refl
is_empty_nil (t ∷ ts) h = absurd (ground arith)

final_status-IsFinal :
    (job : Job) (s : Summary) → IsFinal s (final_status job s.partial_failures s.coverage)
final_status-IsFinal job s = elim (Bool-cases (is_empty s.partial_failures)) [
  | inr e ↦ rw e (engine_failed e)
  | inl e ↦ elim (Bool-cases (is_whole s.coverage.assessment.status)) [
    | inr f ↦ rw e (rw f (gap f))
    | inl f ↦ rw e (rw f (whole (is_empty_nil _ e) (is_whole_complete _ f)))
  ]
]

-- A scan whose reports are written: it has a summary, with the coverage of the rows it leaves.
pub record IsReported (job : Job) (old : List Text) (db : Db) : Type 0 where
  pub path : Trail db.log reporting 90
  pub summary : Summary
  pub result_summary : db.scan.result_summary ≡ some summary
  pub coverage : summary.coverage ≡ coverage_of job db
  pub status : IsFinal summary db.scan.status
  pub finished : db.scan.finished ≡ true
  pub progress : db.scan.progress ≡ 100
  pub moment : ℕ
  pub formats : List Text
  pub written : job.write_all moment ≡ ok formats
  pub reports : db.reports ≡ old ++ formats

Result-cases : {A : Type 0} (r : Result A) → ((a : A) × (r ≡ ok a)) ⊎ ((e : Stop) × (r ≡ stop e))
Result-cases (ok a) = inl (a, refl)
Result-cases (stop e) = inr (e, refl)

module _ (job : Job) (old : List Text) where
  report-IsReported :
      (failures : List Text)
      → Triple (At correlating 75 old) (report job failures) (λ _. IsReported job old) (Stopped old)
  unfolding report stage set_status add_reports complete_scan
  report-IsReported failures = record {
    at = λ db a. elim (Result-cases (job.write_all db.moment)) [
      | inl (formats, e) ↦ rw e (record {
        path = move a.path correlated 90 (omega (arith, a.bounded));
        summary = _;
        result_summary = refl;
        coverage = refl;
        status = final_status-IsFinal job _;
        finished = refl;
        progress = refl;
        moment = db.moment;
        formats = formats;
        written = e;
        reports = cc (a.reports);
      })
      | inr (x, e) ↦ rw e (record {
        status = reporting;
        stop_at = record {
          progress = 90;
          path = move a.path correlated 90 (omega (arith, a.bounded));
          bounded = omega arith;
          reports = a.reports;
        };
      })
    ];
  }

  run_stages-IsReported :
      (deadline : ℕ)
      → Triple (At queued 0 old) (run_stages job deadline) (λ _. IsReported job old) (Stopped old)
  unfolding run_stages
  run_stages-IsReported deadline = >>=-Triple _ _ (initialise-At job old deadline) (λ _.
      >>=-Triple _ _ (discover-At job old deadline) (λ i.
        >>=-Triple _ _ (scan_engines-At job old deadline i.static_findings) (λ g.
          >>=-Triple _ _ (correlate-At job old deadline g.raw_findings)
            (λ _. report-IsReported g.partial_failures))))

abbrev pub is_end : ScanStatus → Bool
is_end failed = true
is_end cancelled = true
is_end timeout = true
is_end _ = false

-- A scan that ended before its reports were written: it has the error, redacted, and no new report.
pub record IsEnded (job : Job) (old : List Text) (db : Db) : Type 0 where
  pub last : Stopped old db
  pub status : is_end db.scan.status ≡ true
  pub finished : db.scan.finished ≡ true
  pub error : Text
  pub error_eq : db.scan.error ≡ some (job.redact error)

terminate-IsEnded :
    (job : Job) (old : List Text) (s : ScanStatus) (error : Text) (db : Db)
    → is_end s ≡ true
    → Stopped old db
    → IsEnded job old (terminate job.redact s error db)
unfolding terminate
terminate-IsEnded job old s error db h k = record {
  last = record {
    status = k.status;
    stop_at = record {
      progress = k.stop_at.progress;
      path = k.stop_at.path;
      bounded = k.stop_at.bounded;
      reports = k.stop_at.reports;
    };
  };
  status = h;
  finished = refl;
  error = error;
  error_eq = refl;
}

settle-ends :
    (job : Job) (old : List Text) (r : Result (Unit {0})) (db : Db)
    → Post (λ _. IsReported job old) (Stopped old) r db
    → IsReported job old (settle job r db) ⊎ IsEnded job old (settle job r db)
unfolding settle
settle-ends job old (ok r) db h = inl h
settle-ends job old (stop scan_cancelled) db h =
    inr (terminate-IsEnded job old cancelled _ db refl h)
settle-ends job old (stop scan_timed_out) db h = inr (terminate-IsEnded job old timeout _ db refl h)
settle-ends job old (stop (target_unreachable reasons)) db h =
    inr (terminate-IsEnded job old failed _ db refl h)
settle-ends job old (stop (raised text)) db h = inr (terminate-IsEnded job old failed _ db refl h)

run_active-ends :
    (job : Job) (db : Db)
    → db.log ≡ []
    → IsReported job db.reports (run_active job db) ⊎ IsEnded job db.reports (run_active job db)
unfolding run_active
run_active-ends job db h =
    settle-ends job db.reports (run_stages job (deadline_of job db) db).0
      (run_stages job (deadline_of job db) db).1
      ((run_stages-IsReported job db.reports (deadline_of job db)).at db
        (record { progress = 0; path = rw h start; bounded = omega arith; reports = refl }))

-- For every job and scan that is not cancelled, with no line in the log: `run` ends, and leaves a
-- scan that is finished. Either it went through all stages in order, with a progress that never
-- fell, stored the reports that were written, and is COMPLETED or PARTIAL as its summary says, with
-- the coverage of the rows it leaves; or it went through some of them, has stored no report, and
-- is FAILED, CANCELLED or TIMEOUT with a redacted error.
pub run-ends :
    (job : Job) (db : Db)
    → was_cancelled job db.scan ≡ false
    → db.log ≡ []
    → (after : Db) × (run job (some db) ≡ some after)
      × (IsReported job db.reports after ⊎ IsEnded job db.reports after)
unfolding run
run-ends job db c h = (run_active job db, rw c refl, run_active-ends job db h)

IsFinal-completed :
    (s : Summary) {status : ScanStatus}
    → IsFinal s status
    → status ≡ completed
    → (s.partial_failures ≡ []) × (s.coverage.assessment.status ≡ complete)
IsFinal-completed s (whole f c) e = (f, c)
IsFinal-completed s (engine_failed f) e = absurd (ground arith)
IsFinal-completed s (gap f) e = absurd (ground arith)

assessed :
    (job : Job) (db : Db)
    → (coverage_of job db).assessment.status ≡ status_of job.percent db.endpoints db.engines
unfolding calculate_coverage assessment
assessed job db = refl

-- The rows of a scan that nothing is missing from: there is an endpoint, each was tested, and each
-- record of a runtime check, baselines left out, was attempted or did not apply; no engine failed.
pub record IsWhole (job : Job) (db : Db) : Type 0 where
  pub some_endpoint : 0 < length db.endpoints
  pub tested : All (λ e. is_tested e.test_status ≡ true) db.endpoints
  pub settled : AllSettled job.percent (check_matrix db.engines)
  pub summary : Summary
  pub result_summary : db.scan.result_summary ≡ some summary
  pub partial_failures : summary.partial_failures ≡ []

reported-IsWhole :
    (job : Job) (old : List Text) (db : Db)
    → IsReported job old db
    → db.scan.status ≡ completed
    → IsWhole job db
reported-IsWhole job old db r done =
    let (failures, status) = IsFinal-completed r.summary r.status done in
    let (some_endpoint, tested, settled) =
      (assessment-complete_iff job.percent db.endpoints db.engines).0 (
        sym (assessed job db)
        ∙ ap (λ (c : Coverage). c.assessment.status) (sym r.coverage)
        ∙ status) in
    record {
      some_endpoint = some_endpoint;
      tested = tested;
      settled = settled;
      summary = r.summary;
      result_summary = r.result_summary;
      partial_failures = failures;
    }

-- For every job and scan that is not cancelled, with no line in the log: if `run` leaves it
-- COMPLETED, then there is an endpoint, every endpoint was tested, every record of a runtime check,
-- baselines left out, was attempted or did not apply, and the summary lists no failed engine.
pub run-IsWhole :
    (job : Job) (db after : Db)
    → was_cancelled job db.scan ≡ false
    → db.log ≡ []
    → run job (some db) ≡ some after
    → after.scan.status ≡ completed
    → IsWhole job after
run-IsWhole job db after c h e done =
    let (found, same, how) = run-ends job db c h in
    let found_eq : found ≡ after = ground (arith, same, e) in
    subst (λ d. d.scan.status ≡ completed → IsWhole job d) found_eq (whole_if found how) done
  where
    whole_if :
        (d : Db)
        → IsReported job db.reports d ⊎ IsEnded job db.reports d
        → d.scan.status ≡ completed
        → IsWhole job d
    whole_if d (inl r) k = reported-IsWhole job db.reports d r k
    whole_if d (inr r) k = absurd (ground (arith, r.status))
