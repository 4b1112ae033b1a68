-- ===== src/Custom/TestingReports.antt =====
-- The report of the tests of an endpoint: Custom/Active.antt, Custom/Testing.antt and
-- Custom/Authorization.antt.
use api_scanner.Common.{
  suc, not, Bool, true, false, ◌≡◌, refl, none, some, List, [], ◌∷◌, ◌++◌, Memᴰ, All, All-append,
  is_empty, any, collect,
}
use api_scanner.Common.Text.{Text, codes}
use api_scanner.Scope.{Response}
use api_scanner.Domain.{FindingDraft}
use api_scanner.Coverage.{CheckStatus}
use api_scanner.Custom.{Endpoint, Auth, Context, Failure, MutationPoint, PreparedRequest, Web}
use api_scanner.Custom.Session
use api_scanner.Custom.Session.{Session, Result, Exec, look, send, send_prepared}
use api_scanner.Custom.Requests.{build_prepared_request, is_prepared}
use api_scanner.Custom.Checks.{
  CheckRecord, check, Tested, joined, detected_or_tested, ActiveCheck, sql_injection,
  nosql_injection, path_traversal, reflected_xss, open_redirect, command_injection, ssrf,
  active_checks, active_name,
}
use api_scanner.Custom.Probe.{Outcome, configured}
use api_scanner.Custom.Payloads.{is_active}
use api_scanner.Custom.Active.{
  findings_of, ssrf_status, active_status, active_record, looped_points, tested_points,
  inactive_reason, test_active_check, input_validation_tests,
}
use api_scanner.Custom.Testing.{
  active_stopped, stopped_check, test_active, test_baseline, after_baseline, baseline_tested,
  test_prepared, test_endpoint,
}
use api_scanner.Custom.Logic.{
  Runs, Runs-if, Runs-pure, Runs-bind, Runs-attempt, Runs-tried, Runs-for_each, Runs-raising,
  Runs-weaken, Each,
}
use api_scanner.Custom.Reports.{
  IsReport, Supports, is_detected, category_of, join-IsReport, map-quiet, quiet-IsReport,
}
use api_scanner.Custom.PassiveReports.{
  passive_names, active_names, test_transport-IsReport, active_skipped-quiet, active_skipped-heads,
  baseline_failed-IsReport, test_retrieval-IsReport, test_missing_auth-IsReport,
}
use api_scanner.Custom.ActiveReports.{IsFinding, Finds, test_point-run}

abbrev later_names : List Text
later_names = codes "baseline" ∷ (passive_names ++ active_names)

-- The checks of an endpoint, in their order.
abbrev pub endpoint_names : List Text
endpoint_names = codes "insecure-transport" ∷ later_names

pub joined-IsReport :
    {A : Type 0} (e : Endpoint) (f : A → List Text) (xs : List A) (ts : List Tested)
    → Each (λ x t. IsReport e (f x) t) xs ts
    → IsReport e (collect f xs) (joined ts)
joined-IsReport e f [] [] h = record { checked = refl; supported = tt }
joined-IsReport e f [] (t ∷ ts) h = elim h [ ]
joined-IsReport e f (x ∷ xs) [] h = elim h [ ]
joined-IsReport e f (x ∷ xs) (t ∷ ts) (h, k) = join-IsReport e h (joined-IsReport e f xs ts k)

-- The report of an endpoint that has a request.
abbrev pub IsTested : Web → Endpoint → Tested → Type 0
IsTested w e t = (is_prepared w e ≡ true) × IsReport e endpoint_names t

module _ (w : Web) (context : Context) (e : Endpoint) where
  all_found :
      {A : Type 0} (name : Text) (xs : List A) (os : List Outcome)
      → Each (λ _ o. Finds w context e name o) xs os
      → All (IsFinding w context e name) (findings_of w context e os)
  all_found name [] [] h = tt
  all_found name [] (o ∷ os) h = elim h [ ]
  all_found name (x ∷ xs) [] h = elim h [ ]
  all_found name (x ∷ xs) (o ∷ os) (h, k) =
      All-append _ o.found (findings_of w context e os) h (all_found name xs os k)

  -- What a status says of the findings.
  abbrev status_detected : CheckStatus → Bool
  status_detected CheckStatus.detected = true
  status_detected _ = false

  detected_or_tested-found :
      (fs : List FindingDraft)
      → status_detected (detected_or_tested (not (is_empty fs))) ≡ true
      → is_empty fs ≡ false
  detected_or_tested-found [] h = cc
  detected_or_tested-found (f ∷ fs) h = refl

  ssrf_status-found :
      (set failed : Bool) (fs : List FindingDraft)
      → status_detected (ssrf_status w context e set failed (not (is_empty fs))).0 ≡ true
      → is_empty fs ≡ false
  ssrf_status-found true true fs h = cc
  ssrf_status-found true false fs h = detected_or_tested-found fs h
  ssrf_status-found false failed fs h = cc

  active_status-found :
      (c : ActiveCheck) (os : List Outcome)
      → status_detected (active_status w context e c os).0 ≡ true
      → is_empty (findings_of w context e os) ≡ false
  active_status-found ssrf os h =
      ssrf_status-found (configured w) (any (λ o. o.collector_error) os)
        (findings_of w context e os) h
  active_status-found sql_injection os h = detected_or_tested-found _ h
  active_status-found nosql_injection os h = detected_or_tested-found _ h
  active_status-found path_traversal os h = detected_or_tested-found _ h
  active_status-found reflected_xss os h = detected_or_tested-found _ h
  active_status-found open_redirect os h = detected_or_tested-found _ h
  active_status-found command_injection os h = detected_or_tested-found _ h

  active_record-found :
      (c : ActiveCheck) (points : List MutationPoint) (os : List Outcome)
      → is_detected (active_record w context e c points os) ≡ true
      → is_empty (findings_of w context e os) ≡ false
  unfolding active_record check
  active_record-found c [] os h = cc
  active_record-found c (p ∷ ps) os h = active_status-found c os h

  first_found :
      (c : CheckRecord) (name : Text) (fs : List FindingDraft)
      → c.row.check ≡ some name
      → c.endpoint ≡ e.path
      → c.method ≡ e.method
      → All (IsFinding w context e (category_of name)) fs
      → is_empty fs ≡ false
      → (f : FindingDraft) × Memᴰ f fs × Supports c f
  first_found c name [] h a b k m = cc
  first_found c name (f ∷ fs) h a b (k, ks) m = (f, Memᴰ.head refl, rw (h, a, b) k)

  active_record-IsSupported :
      {A : Type 0} (c : ActiveCheck) (xs : List A) (points : List MutationPoint) (os : List Outcome)
      → Each (λ _ o. Finds w context e (category_of (active_name c)) o) xs os
      → IsReport e (active_name c ∷ []) (record {
        findings = findings_of w context e os;
        checks = active_record w context e c points os ∷ [];
      })
  unfolding active_record check
  active_record-IsSupported c xs points os h = record {
    checked = refl;
    supported = (
      λ d.
          first_found (active_record w context e c points os) (active_name c)
            (findings_of w context e os) refl refl refl (all_found _ xs os h)
            (active_record-found c points os d),
      tt,
    );
  }

  active_stopped-IsReport : (f : Failure) → IsReport e active_names (active_stopped w context e f)
  unfolding active_stopped check
  active_stopped-IsReport f =
      quiet-IsReport e _ refl (map-quiet (stopped_check w context e f) active_checks (λ c. refl))

  baseline_tested-IsReport : IsReport e (codes "baseline" ∷ []) (baseline_tested w context e)
  unfolding check
  baseline_tested-IsReport = quiet-IsReport e _ refl (refl, tt)

  module _ (P : Session → Type 0)
      (moves : (s : Session) → P s → P (record s { moment = suc s.moment }))
      (sends : (auth : Auth) (method : Text) (p : PreparedRequest)
        → Runs P Unit (λ _. Unit) (send_prepared w context auth method p)) where
    test_active_check-run :
        (r : Response) (c : ActiveCheck)
        → Runs P Unit (IsReport e (active_name c ∷ [])) (test_active_check w context e r c)
    unfolding test_active_check
    test_active_check-run r c =
        Runs-bind P
          (Runs-for_each P (looped_points w context e c)
            (test_point-run w context e P moves sends r c))
          (λ os h. Runs-pure P _ (
            active_record-IsSupported c (looped_points w context e c) (tested_points w context e c)
              os h))

    input_validation_tests-run :
        (r : Response)
        → Runs P Unit (IsReport e active_names) (input_validation_tests w context e r)
    unfolding input_validation_tests
    input_validation_tests-run r =
        Runs-if P (is_active context.profile)
          (Runs-bind P (Runs-for_each P active_checks (test_active_check-run r)) (λ ts h.
            Runs-pure P _ (joined-IsReport e (λ c. active_name c ∷ []) active_checks ts h)))
          (Runs-pure P _ (
            quiet-IsReport e _ (active_skipped-heads w context e (inactive_reason w context e))
              (active_skipped-quiet w context e (inactive_reason w context e))))

    pub test_active-run :
        (r : Response) → Runs P ⊥ (IsReport e active_names) (test_active w context e r)
    unfolding test_active
    test_active-run r =
        Runs-attempt P (input_validation_tests-run r)
          (λ f. Runs-pure P _ (active_stopped-IsReport f))

    test_baseline-run :
        (prepared : PreparedRequest) (r : Response)
        → Runs P ⊥ (IsReport e later_names) (test_baseline w context e prepared r)
    unfolding test_baseline
    test_baseline-run prepared r =
        Runs-bind P (test_retrieval-IsReport w context e P sends r) (λ a h.
          Runs-bind P (test_missing_auth-IsReport w context e P sends _ r) (λ b k.
            Runs-bind P (test_active-run r) (λ c l. Runs-pure P _ (
              join-IsReport e baseline_tested-IsReport (join-IsReport e h (join-IsReport e k l))))))

    after_baseline-run :
        (prepared : PreparedRequest) (r : Result Response)
        → Runs P ⊥ (IsReport e later_names) (after_baseline w context e prepared r)
    after_baseline-run prepared (Session.failed f) =
        Runs-pure P _ (baseline_failed-IsReport w context e f)
    after_baseline-run prepared (Session.ok r) = test_baseline-run prepared r

    test_prepared-run :
        (prepared : PreparedRequest)
        → Runs P ⊥ (IsReport e endpoint_names) (test_prepared w context e prepared)
    unfolding test_prepared
    test_prepared-run prepared =
        Runs-bind P (Runs-tried P (sends context.auth e.method prepared)) (λ r _.
          Runs-bind P (after_baseline-run prepared r) (λ t h.
            Runs-pure P _ (join-IsReport e (test_transport-IsReport w context e prepared.url) h)))

    -- An exception or a report, by whether the endpoint has a request.
    pub test_endpoint-run :
        Runs P (is_prepared w e ≡ false) (IsTested w e) (test_endpoint w context e)
    unfolding test_endpoint
    test_endpoint-run =
        Runs-raising P (build_prepared_request w e none) (λ f h. rw (is_prepared, h) refl)
          (λ prepared h.
            Runs-weaken P (λ x. elim x [ ]) (λ t r. (rw (is_prepared, h) refl, r))
              (test_prepared-run prepared))
