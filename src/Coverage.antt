-- ===== src/Coverage.antt =====
-- app/coverage/service.py: what a scan has looked at. The rows are those of app/models/database.py
-- as far as the calculation reads them; the check records are those that the custom engine builds.
-- `percent a b` is Python's `round(a / b * 100, 1)` for `b` other than 0, in tenths: floats are not
-- modelled.
pub mod Calculate
pub mod Counts
pub mod Assessment
mod Tests
use api_scanner.Common.{
  ℕ, ◌+◌, ◌-◌, Bool, true, false, not, ◌&&◌, ◌||◌, Option, none, some, List, [], ◌∷◌, ◌++◌, map,
  ltb, ◌==◌, if◌then◌else◌, length, is_empty, select, tally, sum_by, any, collect,
}
use api_scanner.Common.Text.{Text, codes, text_eq, starts_with}
use api_scanner.Common.Sorting.{sorted_set, is_in}

-- Endpoint.test_status
pub data TestStatus : Type 0 where
  pending tested skipped : TestStatus

pub record Endpoint : Type 0 where
  pub endpoint_id : Text
  pub source : Text
  pub auth_required : Bool
  pub test_status : TestStatus
  pub skip_reason : Option Text

-- The status of one check of one endpoint.
pub data CheckStatus : Type 0 where
  tested detected skipped error not_applicable : CheckStatus

pub record Check : Type 0 where
  pub endpoint_id : Text
  pub check : Option Text
  pub status : CheckStatus
  pub request_count : ℕ
  pub reason : Option Text

-- EngineResult.status
pub data EngineStatus : Type 0 where
  completed failed skipped timeout cancelled : EngineStatus

-- `checks` is none if `raw_result` is no dict with a list under `checks`.
pub record ScanEngine : Type 0 where
  pub name : Text
  pub status : EngineStatus
  pub request_count : ℕ
  pub reason : Option Text
  pub checks : Option (List Check)

abbrev pub is_tested : TestStatus → Bool
is_tested TestStatus.tested = true
is_tested _ = false

abbrev pub is_skipped : TestStatus → Bool
is_skipped TestStatus.skipped = true
is_skipped _ = false

abbrev pub is_completed : EngineStatus → Bool
is_completed completed = true
is_completed _ = false

-- value.get("status") != "NOT_APPLICABLE"
abbrev pub is_eligible : Check → Bool
is_eligible v = elim v.status [ not_applicable ↦ false | _ ↦ true ]

-- value.get("status") in {"TESTED", "DETECTED"}
abbrev pub is_attempted : Check → Bool
is_attempted v = elim v.status [ CheckStatus.tested ↦ true | detected ↦ true | _ ↦ false ]

abbrev pub is_detected : Check → Bool
is_detected v = elim v.status [ detected ↦ true | _ ↦ false ]

abbrev pub was_skipped : Check → Bool
was_skipped v = elim v.status [ CheckStatus.skipped ↦ true | _ ↦ false ]

abbrev pub is_error : Check → Bool
is_error v = elim v.status [ error ↦ true | _ ↦ false ]

-- A `Counter`: its keys in the order of their first count.
unfoldable pub add_count : Text → ℕ → List (Text × ℕ) → List (Text × ℕ)
add_count k n [] = (k, n) ∷ []
add_count k n ((j, m) ∷ counts) =
    let rest = add_count k n counts in if text_eq k j then (j, m + n) ∷ counts else (j, m) ∷ rest

-- Counter(xs) on top of the counts so far.
unfoldable pub count_all : List (Text × ℕ) → List Text → List (Text × ℕ)
count_all counts [] = counts
count_all counts (x ∷ xs) = count_all (add_count x 1 counts) xs

-- The value if it is true, as a list of at most one text.
abbrev pub truthy_text : Option Text → List Text
truthy_text none = []
truthy_text (some s) = if is_empty s then [] else s ∷ []

pub data ExecutionMode : Type 0 where
  offline runtime : ExecutionMode

pub record CheckCoverage : Type 0 where
  pub execution_mode : ExecutionMode
  pub eligible_endpoints : ℕ
  pub attempted_endpoints : ℕ
  pub detected_endpoints : ℕ
  pub skipped_endpoints : ℕ
  pub error_endpoints : ℕ
  pub request_count : ℕ
  pub percent_attempted : ℕ
  pub skip_reasons : List (Text × ℕ)

pub record CheckSummary : Type 0 where
  pub eligible_endpoint_checks : ℕ
  pub attempted_endpoint_checks : ℕ
  pub skipped_or_error_endpoint_checks : ℕ
  pub percent_attempted : ℕ

pub data AssessmentStatus : Type 0 where
  complete partial incomplete : AssessmentStatus

abbrev pub offline_checks : List Text
offline_checks = codes "insecure-transport" ∷ []

abbrev pub is_offline : Text → Bool
is_offline name = is_in name offline_checks

abbrev pub is_runtime : Text → Bool
is_runtime name = not (is_offline name)

abbrev pub has_name : Option Text → Text → Bool
has_name none name = false
has_name (some c) name = text_eq c name

-- security_checks.get(name, {}).get(field, 0)
abbrev pub field_of : (CheckCoverage → ℕ) → Text → List (Text × CheckCoverage) → ℕ
field_of field name [] = 0
field_of field name ((k, c) ∷ checks) =
    if text_eq k name then field c else field_of field name checks

-- The records of one engine, without the baselines.
abbrev pub engine_checks : Option (List Check) → List Check
engine_checks none = []
engine_checks (some checks) = select (λ v. not (has_name v.check (codes "baseline"))) checks

-- The loop that builds `endpoint_check_matrix`.
unfoldable pub check_matrix : List ScanEngine → List Check
check_matrix = collect (λ e. engine_checks e.checks)

-- sorted({str(value.get("check")) for value in endpoint_check_matrix if value.get("check")})
unfoldable pub check_names : List Check → List Text
check_names matrix = sorted_set (collect (λ v. truthy_text v.check) matrix)

-- statuses.get("TESTED", 0)
unfoldable pub tested_count : List Endpoint → ℕ
tested_count = tally (λ e. is_tested e.test_status)

unfoldable pub skipped_count : List Endpoint → ℕ
skipped_count = tally (λ e. is_skipped e.test_status)

-- Endpoints from a specification.
unfoldable pub defined_count : List Endpoint → ℕ
defined_count =
    tally (λ e. starts_with (codes "OPENAPI") e.source || starts_with (codes "POSTMAN") e.source)

module _ (percent : ℕ → ℕ → ℕ) where
  -- round((attempted / eligible * 100) if eligible else 100.0, 1)
  unfoldable pub percent_attempted : ℕ → ℕ → ℕ
  percent_attempted attempted eligible = if eligible == 0 then 1000 else percent attempted eligible

  -- The body of the loop over `check_names`.
  unfoldable pub check_coverage : List Check → Text → CheckCoverage
  unfolding percent_attempted
  check_coverage matrix name =
      let values = select (λ v. has_name v.check name) matrix in
      let eligible = select is_eligible values in
      let attempted = select is_attempted eligible in
      record {
        execution_mode = if is_offline name then offline else runtime;
        eligible_endpoints = length eligible;
        attempted_endpoints = length attempted;
        detected_endpoints = tally is_detected eligible;
        skipped_endpoints = tally was_skipped eligible;
        error_endpoints = tally is_error eligible;
        request_count = sum_by (λ v. v.request_count) values;
        percent_attempted = percent_attempted (length attempted) (length eligible);
        skip_reasons = count_all [] (
            collect (λ v. if was_skipped v || is_error v then truthy_text v.reason else [])
              eligible);
      }

  unfoldable pub security_checks : List Check → List (Text × CheckCoverage)
  security_checks matrix = map (λ name. (name, check_coverage matrix name)) (check_names matrix)

  -- `_check_summary`, with the set of names as its test.
  unfoldable pub check_summary : List (Text × CheckCoverage) → (Text → Bool) → CheckSummary
  check_summary checks names =
      let chosen = select (λ c. names c.0) checks in
      let eligible = sum_by (λ c. c.1.eligible_endpoints) chosen in
      let attempted = sum_by (λ c. c.1.attempted_endpoints) chosen in
      record {
        eligible_endpoint_checks = eligible;
        attempted_endpoint_checks = attempted;
        skipped_or_error_endpoint_checks = eligible - attempted;
        percent_attempted = percent_attempted attempted eligible;
      }

-- if not total or not tested / elif tested < total or blocked / else
unfoldable pub assessment_status : ℕ → ℕ → ℕ → AssessmentStatus
assessment_status total reached blocked =
    if total == 0 || reached == 0
    then incomplete
    else if ltb reached total || not (blocked == 0)
    then partial
    else complete
