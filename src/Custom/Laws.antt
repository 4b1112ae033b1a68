-- ===== src/Custom/Laws.antt =====
-- What the engine does, as a whole: `_test_endpoint`, `execute` and `run`, on all inputs.
use api_scanner.Common.{
  false, select, all, is_empty, ◌≡◌, refl, ◌∙◌, Option, List, [], ◌∷◌, ◌++◌, map, All, All-append,
  collect, arith,
}
use api_scanner.Common.Text.{Text}
use api_scanner.Budget.{request_budget}
use api_scanner.Custom.{Endpoint, Context, Web}
use api_scanner.Custom.Requests.{is_prepared}
use api_scanner.Custom.Session
use api_scanner.Custom.Session.{Session, Result, Exec, tried}
use api_scanner.Custom.Checks.{Tested, joined}
use api_scanner.Custom.Execute.{Gathered, batch, errors_of, start, gather}
use api_scanner.Custom.Logic.{Runs, Runs-pure, Runs-bind, Runs-tried, Runs-for_each, Each, OnResult}
use api_scanner.Custom.Limits.{IsWithin, moved, send-run, send_prepared-run}
use api_scanner.Custom.Reports.{
  IsReport, IsSupported, heads, named, heads-append, IsSupported-left, IsSupported-right,
}
use api_scanner.Custom.TestingReports.{endpoint_names, IsTested, test_endpoint-run}
use api_scanner.Custom.AuthorizationReports.{authorization_names, test_authorization-run}

-- The checks of all endpoints, each with its endpoint and name.
abbrev pub planned : List Text → List Endpoint → List (Text × Option Text)
planned names es = collect (λ e. named e names) es

module _ (w : Web) (context : Context) where
  -- The result of one batch: an exception if the endpoint has no request, a report otherwise.
  abbrev IsBatch : Endpoint → Result Tested → Type 0
  IsBatch e r = OnResult (is_prepared w e ≡ false) (IsTested w e) r

  -- What a part of the run reports: its checks, and a finding for each that is DETECTED.
  pub record Reports (names : List Text) (es : List Endpoint) (t : Tested) : Type 0 where
    pub checked : heads t.checks ≡ planned names es
    pub supported : All (IsSupported t.findings) t.checks

  joined_report :
      (names : List Text) (e : Endpoint) (es : List Endpoint) (t : Tested) (ts : List Tested)
      → IsReport e names t
      → Reports names es (joined ts)
      → Reports names (e ∷ es) (joined (t ∷ ts))
  joined_report names e es t ts h r = record {
    checked = heads-append t.checks (joined ts).checks ∙ rw (h.checked, r.checked) refl;
    supported =
        All-append _ t.checks (joined ts).checks
          (IsSupported-left t.findings (joined ts).findings t.checks h.supported)
          (IsSupported-right t.findings (joined ts).findings (joined ts).checks r.supported);
  }

  joined-Reports :
      (names : List Text) (es : List Endpoint) (ts : List Tested)
      → Each (λ e t. IsReport e names t) es ts
      → Reports names es (joined ts)
  joined-Reports names [] [] h = record { checked = refl; supported = tt }
  joined-Reports names [] (t ∷ ts) h = elim h [ ]
  joined-Reports names (e ∷ es) [] h = elim h [ ]
  joined-Reports names (e ∷ es) (t ∷ ts) (h, k) =
      joined_report names e es t ts h (joined-Reports names es ts k)

  -- The batches: an error for each endpoint that has no request, the checks of the others.
  batches :
      (es : List Endpoint) (rs : List (Result Tested))
      → Each IsBatch es rs
      → (is_empty (errors_of rs) ≡ all (is_prepared w) es)
        × Reports endpoint_names (select (is_prepared w) es) (joined (map batch rs))
  batches [] [] h = (refl, record { checked = refl; supported = tt })
  batches [] (r ∷ rs) h = elim h [ ]
  batches (e ∷ es) [] h = elim h [ ]
  batches (e ∷ es) (Session.failed f ∷ rs) (h, k) =
      let (a, b) = batches es rs k in
      rw h (refl, record { checked = b.checked; supported = b.supported })
  batches (e ∷ es) (Session.ok t ∷ rs) ((h, r), k) =
      let (a, b) = batches es rs k in
      rw h (a, joined_report endpoint_names e (select (is_prepared w) es) t (map batch rs) r b)

  -- What `gather` ends with.
  pub record IsComplete (g : Gathered) : Type 0 where
    pub errors : is_empty g.errors ≡ all (is_prepared w) context.endpoints
    pub checked :
        heads g.tested.checks
        ≡ planned endpoint_names (select (is_prepared w) context.endpoints)
          ++ planned authorization_names context.endpoints
    pub supported : All (IsSupported g.tested.findings) g.tested.checks

  pub gather-run : Runs (IsWithin w context 0) ⊥ IsComplete (gather w context)
  unfolding gather
  gather-run =
      let P = IsWithin w context 0 in
      Runs-bind P
        (Runs-for_each P context.endpoints (λ e.
          Runs-tried P
            (test_endpoint-run w context e P (moved w context) (send_prepared-run w context))))
        (λ rs h.
          Runs-bind P
            (Runs-for_each P context.endpoints
              (λ e. test_authorization-run w context e P (send-run w context)))
            (λ auth k. Runs-pure P _ (
              let t = joined (map batch rs) in
              let a = joined auth in
              let (failures, tested) = batches context.endpoints rs h in
              let authorised = joined-Reports authorization_names context.endpoints auth k in
              record {
                errors = failures;
                checked =
                    heads-append t.checks a.checks ∙ rw (tested.checked, authorised.checked) refl;
                supported =
                    All-append _ t.checks a.checks
                      (IsSupported-left t.findings a.findings t.checks tested.supported)
                      (IsSupported-right t.findings a.findings a.checks authorised.supported);
              })))

  pub started : IsWithin w context 0 (start w context)
  unfolding request_budget
  started = record {
    admitted = tt;
    sent_le = omega arith;
    count_le = omega arith;
    maximum_eq = refl;
  }
