-- ===== src/Coverage/Counts.antt =====
-- The counts of the coverage add up.
use api_scanner.Common.{
  ℕ, ◌+◌, ◌≤◌, Bool, true, not, ◌≡◌, refl, List, [], ◌∷◌, arith, length, select, tally,
  tally-le-length, sum_by,
}
use api_scanner.Common.Text.{Text}
use api_scanner.Coverage.{
  Endpoint, Check, ScanEngine, CheckCoverage, CheckSummary, has_name, is_eligible, is_attempted,
  is_detected, was_skipped, is_error, is_offline, is_runtime, check_coverage, check_summary,
  tested_count, skipped_count, defined_count,
}
use api_scanner.Coverage.Calculate.{EndpointCoverage, endpoint_coverage}

tested-add-skipped : (es : List Endpoint) → tested_count es + skipped_count es ≤ length es
unfolding tested_count skipped_count
tested-add-skipped [] = omega arith
tested-add-skipped (e ∷ es) = ground (arith, tested-add-skipped es)

defined-le-length : (es : List Endpoint) → defined_count es ≤ length es
unfolding defined_count
defined-le-length es = tally-le-length _ es

-- For all endpoints and engines: of the endpoints, the tested, the skipped and the not tested make
-- up the total, and so do the defined and the discovered.
pub endpoint_coverage-total :
    (percent : ℕ → ℕ → ℕ) (endpoints : List Endpoint) (engines : List ScanEngine)
    → let c : EndpointCoverage = endpoint_coverage percent endpoints engines in
      (c.reached + c.skipped + c.not_tested ≡ c.total) × (c.defined + c.discovered ≡ c.total)
unfolding endpoint_coverage
endpoint_coverage-total percent endpoints engines =
    (omega (arith, tested-add-skipped endpoints), omega (arith, defined-le-length endpoints))

-- Each eligible check was attempted, was skipped or failed, and only attempted ones detect.
eligible-parts :
    (vs : List Check)
    → (length (select is_eligible vs)
        ≡ length (select is_attempted (select is_eligible vs))
          + tally was_skipped (select is_eligible vs)
          + tally is_error (select is_eligible vs))
      × (tally is_detected (select is_eligible vs)
          ≤ length (select is_attempted (select is_eligible vs)))
eligible-parts [] = (omega arith, omega arith)
eligible-parts (v ∷ vs) = (ground (arith, eligible-parts vs), ground (arith, eligible-parts vs))

-- For all check records and names: in the coverage of a check, every eligible endpoint was
-- attempted, was skipped or failed with an error, and no more endpoints detect than were attempted.
pub check_coverage-parts :
    (percent : ℕ → ℕ → ℕ) (matrix : List Check) (name : Text)
    → let c : CheckCoverage = check_coverage percent matrix name in
      (c.eligible_endpoints ≡ c.attempted_endpoints + c.skipped_endpoints + c.error_endpoints)
      × (c.detected_endpoints ≤ c.attempted_endpoints)
unfolding check_coverage
check_coverage-parts percent matrix name =
    eligible-parts (select (λ v. has_name v.check name) matrix)

-- The sum of a field over the checks that pass a test, and over those that fail it.
sum_split :
    (f : Text × CheckCoverage → ℕ) (p : Text → Bool) (checks : List (Text × CheckCoverage))
    → sum_by f (select (λ c. p c.0) checks) + sum_by f (select (λ c. not (p c.0)) checks)
      ≡ sum_by f (select (λ c. true) checks)
sum_split f p [] = refl
sum_split f p (c ∷ checks) = ground (arith, sum_split f p checks)

-- For all checks: the eligible and the attempted checks of the whole are those of the runtime
-- summary and those of the offline summary together.
pub check_summary-split :
    (percent : ℕ → ℕ → ℕ) (checks : List (Text × CheckCoverage))
    → let all : CheckSummary = check_summary percent checks (λ _. true) in
      let off : CheckSummary = check_summary percent checks is_offline in
      let run : CheckSummary = check_summary percent checks is_runtime in
      (off.eligible_endpoint_checks + run.eligible_endpoint_checks ≡ all.eligible_endpoint_checks)
      × (off.attempted_endpoint_checks + run.attempted_endpoint_checks
          ≡ all.attempted_endpoint_checks)
unfolding check_summary
check_summary-split percent checks = (
  sum_split (λ c. c.1.eligible_endpoints) is_offline checks,
  sum_split (λ c. c.1.attempted_endpoints) is_offline checks,
)
