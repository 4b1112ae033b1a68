-- ===== src/Coverage/Tests.antt =====
-- Runs of the coverage calculation.
use api_scanner.Common.{ℕ, ◌*◌, ◌/◌, ◌<◌, ◌≡◌, ◌↔◌, true, none, some, List, [], ◌∷◌, All, length}
use api_scanner.Common.Text.{Text, codes}
use api_scanner.Coverage.{
  Endpoint, TestStatus, Check, CheckStatus, EngineStatus, ScanEngine, check_matrix, check_coverage,
  CheckCoverage, is_tested, complete, CheckStatus,
}
use api_scanner.Coverage.Calculate.{status_of}
use api_scanner.Coverage.Assessment.{AllSettled, assessment-complete_iff}

abbrev tenths : ℕ → ℕ → ℕ
tenths a b = a * 1000 / b

abbrev endpoint : Text → TestStatus → Endpoint
endpoint id status = record {
  endpoint_id = id;
  source = codes "openapi";
  auth_required = true;
  test_status = status;
  skip_reason = none;
}

abbrev endpoints : List Endpoint
endpoints =
    endpoint (codes "a") TestStatus.tested
    ∷ endpoint (codes "b") TestStatus.skipped
    ∷ endpoint (codes "c") TestStatus.pending
    ∷ []

abbrev check : Text → Text → CheckStatus → Check
check id name status = record {
  endpoint_id = id;
  check = some name;
  status = status;
  request_count = 1;
  reason = none;
}

abbrev matrix : List Check
matrix =
    check (codes "a") (codes "cors") CheckStatus.tested
    ∷ check (codes "b") (codes "cors") CheckStatus.skipped
    ∷ check (codes "c") (codes "cors") CheckStatus.not_applicable
    ∷ []

abbrev engines : List ScanEngine
engines =
    record {
      name = codes "custom";
      status = EngineStatus.completed;
      request_count = 3;
      reason = none;
      checks = some matrix;
    }
    ∷ []

abbrev named : List (Text × CheckCoverage)
named = (codes "cors", check_coverage tenths matrix (codes "cors")) ∷ []

assessment-complete_iff_example : (status_of tenths endpoints engines ≡ complete) ↔ (
    (0 < length endpoints)
    × All (λ e. is_tested e.test_status ≡ true) endpoints
    × AllSettled tenths (check_matrix engines))
assessment-complete_iff_example = assessment-complete_iff tenths endpoints engines
