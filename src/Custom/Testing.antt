-- ===== src/Custom/Testing.antt =====
-- `_test_endpoint` of app/engines/custom.py.
use api_scanner.Common.{none, some, [], ◌∷◌, ◌++◌, map}
use api_scanner.Common.Text.{codes}
use api_scanner.Scope.{Response}
use api_scanner.Coverage.{CheckStatus}
use api_scanner.Custom.{Endpoint, Context, Failure, PreparedRequest, Web}
use api_scanner.Custom.Session
use api_scanner.Custom.Session.{
  Session, Result, Exec, ◌>>=◌, ◌>>◌, pure, raising, attempt, tried, for_each, send_prepared,
}
use api_scanner.Custom.Requests.{build_prepared_request}
use api_scanner.Custom.Checks.{
  CheckRecord, check, Tested, join_tested, active_checks, ActiveCheck, active_name,
}
use api_scanner.Custom.Passive.{test_transport, baseline_failed, test_retrieval, test_missing_auth}
use api_scanner.Custom.Active.{input_validation_tests}

module _ (w : Web) (context : Context) (e : Endpoint) where
  abbrev pub stopped_check : Failure → ActiveCheck → CheckRecord
  stopped_check f c =
      check e (active_name c) CheckStatus.error [] 0
        (some (codes "active testing stopped: " ++ f.kind)) []

  -- The `except` around the active tests.
  unfoldable pub active_stopped : Failure → Tested
  active_stopped f = record { findings = []; checks = map (stopped_check f) active_checks }

  unfoldable pub test_active : Response → Exec Tested
  unfolding active_stopped input_validation_tests
  test_active baseline =
      attempt (input_validation_tests w context e baseline) (λ f. pure (active_stopped f))

  abbrev pub baseline_tested : Tested
  baseline_tested = record {
    findings = [];
    checks = check e (codes "baseline") CheckStatus.tested [] 1 none [] ∷ [];
  }

  -- What follows the baseline request.
  unfoldable pub test_baseline : PreparedRequest → Response → Exec Tested
  unfolding test_active test_retrieval test_missing_auth
  test_baseline prepared baseline = test_retrieval w context e baseline >>= λ a.
      (test_missing_auth w context e prepared baseline >>= λ b.
      (test_active baseline >>= λ c.
      pure (join_tested baseline_tested (join_tested a (join_tested b c)))))

  abbrev pub after_baseline : PreparedRequest → Result Response → Exec Tested
  after_baseline prepared (Session.failed f) = pure (baseline_failed w context e f)
  after_baseline prepared (Session.ok r) = test_baseline prepared r

  -- _test_endpoint, once its request is built.
  unfoldable pub test_prepared : PreparedRequest → Exec Tested
  unfolding test_baseline test_transport baseline_failed
  test_prepared prepared = tried (send_prepared w context context.auth e.method prepared) >>= λ r.
      (after_baseline prepared r >>= λ t.
      pure (join_tested (test_transport w context e prepared.url) t))

  -- CustomApiEngine._test_endpoint
  unfoldable pub test_endpoint : Exec Tested
  unfolding test_prepared
  test_endpoint = raising (build_prepared_request w e none) >>= test_prepared
