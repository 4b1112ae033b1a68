-- ===== src/Custom/PassiveReports.antt =====
-- The reports of the passive tests: Custom/Passive.antt.
use api_scanner.Common.{
  none, Bool, true, false, ◌≡◌, refl, Option, List, [], ◌∷◌, ◌++◌, map, All, All-append,
}
use api_scanner.Common.Text.{Text, codes, text_eq}
use api_scanner.Scope.{Response}
use api_scanner.Coverage.{CheckStatus}
use api_scanner.Custom.{Endpoint, Auth, Context, MutationPoint, PreparedRequest, Failure, Web}
use api_scanner.Custom.Session.{Session, send_prepared}
use api_scanner.Custom.Checks.{
  request_failure, check, PassiveCheck, security_headers, excessive_data_exposure,
  cors_misconfiguration, passive_checks, active_checks, passive_name, active_name,
}
use api_scanner.Custom.Passive.{
  test_transport, passive_skipped, active_skipped, baseline_failed, test_headers, test_exposure,
  judge_cors, error_check, test_cors, test_retrieval, judge_missing_auth, test_missing_auth,
  skipped_if, retrieval_only,
}
use api_scanner.Custom.Requests.{build_prepared_request}
use api_scanner.Custom.Logic.{Runs-raising, Runs, Runs-if, Runs-pure, Runs-bind, Runs-attempt}
use api_scanner.Custom.Reports.{
  IsReport, is_detected, heads, named, join-IsReport, map-quiet, quiet-IsReport, one_check-IsReport,
  found-IsReport,
}

abbrev pub passive_names : List Text
passive_names = map passive_name passive_checks

abbrev pub active_names : List Text
active_names = map active_name active_checks

module _ (w : Web) (context : Context) (e : Endpoint) where
  pub test_transport-IsReport :
      (url : Text) → IsReport e (codes "insecure-transport" ∷ []) (test_transport w context e url)
  unfolding test_transport text_eq check
  test_transport-IsReport url = found-IsReport w context e _ _ _ _ _ refl

  test_headers-IsReport :
      (r : Response) → IsReport e (codes "security-headers" ∷ []) (test_headers w context e r)
  unfolding test_headers text_eq check
  test_headers-IsReport r = found-IsReport w context e _ _ _ _ _ refl

  test_exposure-IsReport :
      (r : Response)
      → IsReport e (codes "excessive-data-exposure" ∷ []) (test_exposure w context e r)
  unfolding test_exposure text_eq check
  test_exposure-IsReport r = found-IsReport w context e _ _ _ _ _ refl

  judge_missing_auth-IsReport :
      (r a : Response)
      → IsReport e (codes "missing-authentication" ∷ []) (judge_missing_auth w context e r a)
  unfolding judge_missing_auth text_eq check
  judge_missing_auth-IsReport r a = found-IsReport w context e _ _ _ _ _ refl

  skipped_if-quiet :
      (applicable : Bool) (name : Text) (points : List MutationPoint) (reason : Option Text)
      (techniques : List Text)
      → is_detected (check e name (skipped_if w context e applicable) points 0 reason techniques)
        ≡ false
  unfolding check
  skipped_if-quiet true name points reason techniques = refl
  skipped_if-quiet false name points reason techniques = refl

  passive_skipped-quiet :
      (reason : Text)
      → All (λ c. is_detected c ≡ false) (map (passive_skipped w context e reason) passive_checks)
  passive_skipped-quiet reason =
      map-quiet (passive_skipped w context e reason) passive_checks
        (λ c. skipped_if-quiet _ _ _ _ _)

  pub active_skipped-quiet :
      (reason : Text)
      → All (λ c. is_detected c ≡ false) (map (active_skipped w context e reason) active_checks)
  active_skipped-quiet reason =
      map-quiet (active_skipped w context e reason) active_checks (λ c. skipped_if-quiet _ _ _ _ _)

  pub active_skipped-heads :
      (reason : Text)
      → heads (map (active_skipped w context e reason) active_checks) ≡ named e active_names
  unfolding check
  active_skipped-heads reason = refl

  pub baseline_failed-IsReport :
      (f : Failure)
      → IsReport e
          (codes "baseline" ∷ (passive_names ++ active_names))
          (baseline_failed w context e f)
  unfolding baseline_failed check
  baseline_failed-IsReport f =
      let reason = request_failure (codes "baseline request failed") f in
      quiet-IsReport e _ refl (
        refl,
        All-append (λ c. is_detected c ≡ false)
            (map (passive_skipped w context e reason) passive_checks)
            (map (active_skipped w context e reason) active_checks) (passive_skipped-quiet reason)
            (active_skipped-quiet reason),
      )

  error_check-IsReport :
      (name prefix : Text) (f : Failure)
      → IsReport e (name ∷ []) (error_check w context e name prefix f)
  unfolding check
  error_check-IsReport name prefix f = one_check-IsReport e name CheckStatus.error _ refl

  module _ (P : Session → Type 0)
      (sends : (auth : Auth) (method : Text) (p : PreparedRequest)
        → Runs P Unit (λ _. Unit) (send_prepared w context auth method p)) where
    test_cors-IsReport :
        Runs P ⊥ (IsReport e (codes "cors-misconfiguration" ∷ [])) (test_cors w context e)
    unfolding test_cors judge_cors text_eq check
    test_cors-IsReport =
        Runs-attempt P
          (Runs-raising P (build_prepared_request w e none) (λ _ _. tt)
            (λ prepared _.
              Runs-bind P (sends _ _ _)
                (λ r _. Runs-pure P _ (found-IsReport w context e _ _ _ _ _ refl))))
          (λ f. Runs-pure P _ (error_check-IsReport _ (codes "CORS probe failed") f))

    retrieval_only-IsReport :
        (c : PassiveCheck) → IsReport e (passive_name c ∷ []) (retrieval_only w context e c)
    unfolding check
    retrieval_only-IsReport c = one_check-IsReport e _ CheckStatus.not_applicable _ refl

    abbrev retrieval_names : List Text
    retrieval_names =
        map passive_name (security_headers ∷ excessive_data_exposure ∷ cors_misconfiguration ∷ [])

    pub test_retrieval-IsReport :
        (r : Response) → Runs P ⊥ (IsReport e retrieval_names) (test_retrieval w context e r)
    unfolding test_retrieval
    test_retrieval-IsReport r =
        Runs-if P _
          (Runs-bind P test_cors-IsReport (λ t k. Runs-pure P _ (
            join-IsReport e (test_headers-IsReport r)
              (join-IsReport e (test_exposure-IsReport r) k))))
          (Runs-pure P _ (
            join-IsReport e (retrieval_only-IsReport security_headers) (
              join-IsReport e (retrieval_only-IsReport excessive_data_exposure)
                (retrieval_only-IsReport cors_misconfiguration))))

    pub test_missing_auth-IsReport :
        (p : PreparedRequest) (r : Response)
        → Runs P ⊥
            (IsReport e (codes "missing-authentication" ∷ []))
            (test_missing_auth w context e p r)
    unfolding test_missing_auth check
    test_missing_auth-IsReport p r =
        Runs-if P e.auth_required
          (Runs-attempt P
            (Runs-bind P (sends _ _ _) (λ a _. Runs-pure P _ (judge_missing_auth-IsReport r a)))
            (λ f. Runs-pure P _ (error_check-IsReport _ (codes "unauthenticated probe failed") f)))
          (Runs-pure P _ (one_check-IsReport e _ CheckStatus.not_applicable _ refl))
