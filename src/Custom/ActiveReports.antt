-- ===== src/Custom/ActiveReports.antt =====
-- The reports of the active tests: Custom/Probe.antt and Custom/Active.antt.
use api_scanner.Common.{
  inr, ℕ, zero, suc, Bool, true, false, ◌≡◌, refl, Option, none, some, List, [], ◌∷◌, ◌++◌, map,
  All, is_empty,
}
use api_scanner.Common.Text.{Text, codes, text_eq}
use api_scanner.Json.{Json, str}
use api_scanner.Scope.{Response}
use api_scanner.Domain.{FindingDraft}
use api_scanner.Custom.{Endpoint, Auth, Context, MutationPoint, PreparedRequest, Web}
use api_scanner.Custom.Session.{Session, look, send_prepared}
use api_scanner.Custom.Checks.{
  ActiveCheck, sql_injection, nosql_injection, path_traversal, reflected_xss, open_redirect,
  command_injection, ssrf, active_name, Issue, finding,
}
use api_scanner.Custom.Payloads.{
  sql_error_payloads, traversal_payloads, xss_payloads, callback_urls, command_payloads,
  active_issue, boolean_issue,
}
use api_scanner.Custom.Evidence.{
  sql_error_evidence, path_traversal_evidence, reflected_xss_evidence, open_redirect_evidence,
  command_execution_evidence,
}
use api_scanner.Custom.Probe.{
  Outcome, outcome, Attempt, has_collector, event_url, poll_hit, oast_hit, register_oast, mutate,
  point_finding, probe,
}
use api_scanner.Custom.Active.{
  boolean_point, sql_point, operate, nosql_point, callback_point, ssrf_point, collector_failed,
  callback_evidence, judge_callback, callback_url, test_point,
}
use api_scanner.Custom.Requests.{build_prepared_request}
use api_scanner.Custom.Logic.{Runs-raising, Runs, Runs-if, Runs-option, Runs-pure, Runs-bind}
use api_scanner.Custom.Reports.{category_of}

module _ (w : Web) (context : Context) (e : Endpoint) where
  -- A finding of the check at the endpoint.
  abbrev pub IsFinding : Text → FindingDraft → Type 0
  IsFinding category f =
      (f.category ≡ category) × (f.endpoint ≡ some e.path) × (f.method ≡ some e.method)

  abbrev pub Finds : Text → Outcome → Type 0
  Finds category o = All (IsFinding category) o.found

  point_finding-IsFinding :
      (i : Issue) (p : MutationPoint) (r : Response) (evidence request : Json)
      → IsFinding i.category (point_finding w context e i p r evidence request)
  unfolding point_finding finding
  point_finding-IsFinding i p r evidence request = (refl, refl, refl)

  module _ (P : Session → Type 0)
      (moves : (s : Session) → P s → P (record s { moment = suc s.moment }))
      (sends : (auth : Auth) (method : Text) (p : PreparedRequest)
        → Runs P Unit (λ _. Unit) (send_prepared w context auth method p)) where
    Runs-look : Runs P Unit (λ _. Unit) look
    Runs-look = record { run = λ s p. (tt, moves s p) }

    mutate-run :
        (p : MutationPoint) (payload : Json)
        → Runs P Unit (λ _. Unit) (mutate w context e p payload)
    unfolding mutate
    mutate-run p payload =
        Runs-raising P (build_prepared_request w e (some (p.key, payload))) (λ _ _. tt)
          (λ prepared _. Runs-bind P (sends _ _ _) (λ r _. Runs-pure P _ tt))

    probe-run :
        (i : Issue) (p : MutationPoint) (n : ℕ) (attempts : List Attempt)
        → Runs P Unit (Finds i.category) (probe w context e i p n attempts)
    unfolding probe
    probe-run i p n [] = Runs-pure P _ tt
    probe-run i p n ((payload, judge) ∷ attempts) = Runs-bind P (mutate-run p (str payload)) (λ m _.
        Runs-raising P (judge m.1) (λ _ _. tt)
          (λ found _.
            Runs-option P found (probe-run i p (suc n) attempts)
              (λ evidence. Runs-pure P _ (point_finding-IsFinding i p _ evidence _, tt))))

    -- The last step of a test of two requests: an outcome with a finding, or one without.
    last_option :
        (i : Issue) (p : MutationPoint) (r : Response) (request : Json) (n : ℕ)
        (verdict : Option Json)
        → Finds i.category (elim verdict [
          | none ↦ outcome n []
          | some evidence ↦ outcome n (point_finding w context e i p r evidence request ∷ [])
        ])
    last_option i p r request n none = tt
    last_option i p r request n (some evidence) =
        (point_finding-IsFinding i p r evidence request, tt)

    boolean_point-run :
        (p : MutationPoint) (n : ℕ)
        → Runs P Unit (Finds (codes "sql-injection")) (boolean_point w context e p n)
    unfolding boolean_point
    boolean_point-run p n = Runs-bind P (mutate-run p _) (λ m _.
        Runs-bind P (mutate-run p _) (λ k _. Runs-pure P _ (last_option boolean_issue p _ _ _ _)))

    sql_point-run :
        (r : Response) (p : MutationPoint)
        → Runs P Unit (Finds (codes "sql-injection")) (sql_point w context e r p)
    unfolding sql_point
    sql_point-run r p =
        Runs-bind P
          (probe-run (active_issue sql_injection) p 0
            (map (λ payload. (payload, λ x. inr (sql_error_evidence w r x))) sql_error_payloads))
          (λ o h. Runs-if P (is_empty o.found) (boolean_point-run p o.requests) (Runs-pure P o h))

    operate-run :
        (p : MutationPoint) (name : Text) → Runs P Unit (λ _. Unit) (operate w context e p name)
    unfolding operate
    operate-run p name = Runs-if P _ (mutate-run p _) (
        Runs-raising P (build_prepared_request w e none) (λ _ _. tt)
          (λ plain _. Runs-bind P (sends _ _ _) (λ r _. Runs-pure P _ tt)))

    nosql_point-run :
        (r : Response) (p : MutationPoint)
        → Runs P Unit (Finds (codes "nosql-injection")) (nosql_point w context e r p)
    unfolding nosql_point
    nosql_point-run r p = Runs-bind P (operate-run p _) (λ m _.
        Runs-bind P (operate-run p _)
          (λ k _. Runs-pure P _ (last_option (active_issue nosql_injection) p _ _ _ _)))

    poll_hit-run : (n : ℕ) (url : Text) → Runs P Unit (λ _. Unit) (poll_hit w n url)
    unfolding poll_hit
    poll_hit-run zero url = Runs-pure P _ tt
    poll_hit-run (suc n) url = Runs-bind P Runs-look (λ now _.
        Runs-option P (w.poll now url) (Runs-pure P none tt)
          (λ hit. Runs-if P hit (Runs-pure P (some true) tt) (poll_hit-run n url)))

    oast_hit-run : (token : Text) → Runs P Unit (λ _. Unit) (oast_hit w token)
    unfolding oast_hit
    oast_hit-run token =
        Runs-if P (has_collector w) (poll_hit-run 3 (event_url w token)) (Runs-pure P none tt)

    register_oast-run : (token : Text) → Runs P Unit (λ _. Unit) (register_oast w token)
    unfolding register_oast
    register_oast-run token =
        Runs-if P (has_collector w)
          (Runs-bind P Runs-look (λ now _.
            Runs-option P (w.register now (event_url w token ++ codes "/register"))
              (Runs-pure P false tt) (λ b. Runs-pure P b tt)))
          (Runs-pure P false tt)

    judge_callback-Finds :
        (p : MutationPoint) (url : Text) (m : PreparedRequest × Response) (hit : Option Bool)
        → Finds (codes "ssrf") (judge_callback w context e p url m hit)
    judge_callback-Finds p url m none = tt
    judge_callback-Finds p url m (some false) = tt
    judge_callback-Finds p url m (some true) =
        (point_finding-IsFinding (active_issue ssrf) p m.1 (callback_evidence w context e) _, tt)

    callback_point-run :
        (p : MutationPoint) (token : Text)
        → Runs P Unit (Finds (codes "ssrf")) (callback_point w context e p token)
    unfolding callback_point
    callback_point-run p token = Runs-bind P (mutate-run p _) (λ m _.
        Runs-bind P (oast_hit-run token)
          (λ hit _. Runs-pure P _ (judge_callback-Finds p (callback_url w context e token) m hit)))

    ssrf_point-run :
        (p : MutationPoint) → Runs P Unit (Finds (codes "ssrf")) (ssrf_point w context e p)
    unfolding ssrf_point
    ssrf_point-run p = Runs-bind P Runs-look (λ now _.
        Runs-bind P (register_oast-run (w.token now)) (λ b _.
          Runs-if P b (callback_point-run p (w.token now))
            (Runs-pure P (collector_failed w context e 0) tt)))

    pub test_point-run :
        (r : Response) (c : ActiveCheck) (p : MutationPoint)
        → Runs P Unit (Finds (category_of (active_name c))) (test_point w context e r c p)
    unfolding test_point text_eq
    test_point-run r sql_injection p = sql_point-run r p
    test_point-run r nosql_injection p = nosql_point-run r p
    test_point-run r path_traversal p = probe-run (active_issue path_traversal) p 0 (
        map (λ payload. (payload, λ x. inr (path_traversal_evidence w r x)))
          (traversal_payloads context.profile))
    test_point-run r reflected_xss p =
        probe-run (active_issue reflected_xss) p 0
          (map (λ payload. (payload, λ x. inr (reflected_xss_evidence w payload x))) xss_payloads)
    test_point-run r open_redirect p =
        probe-run (active_issue open_redirect) p 0
          (map (λ payload. (payload, open_redirect_evidence w payload)) callback_urls)
    test_point-run r command_injection p =
        probe-run (active_issue command_injection) p 0
          (map (λ c. (c.0, λ x. inr (command_execution_evidence w c.0 c.1 x))) command_payloads)
    test_point-run r ssrf p = ssrf_point-run p
