-- ===== src/Custom/Outcomes.antt =====
-- What a scan gets from the engine: `execute` of app/engines/custom.py.
use api_scanner.Common.{
  ◌≤◌, Bool, true, false, ◌&&◌, ◌≡◌, refl, ap, Option, none, some, List, map, length, All, arith,
}
use api_scanner.Common.Text.{Text, codes, text_eq}
use api_scanner.Coverage.{Check, CheckStatus, failed}
use api_scanner.Orchestrator.Engines.{EngineResult, returned}
use api_scanner.Custom.{Context, Web}
use api_scanner.Custom.Session
use api_scanner.Custom.Session.{Session, Result, Exec}
use api_scanner.Custom.Checks.{CheckRecord}
use api_scanner.Custom.Execute.{Gathered, concluded, start, gather, result_of, execute}
use api_scanner.Custom.Logic.{OnResult}
use api_scanner.Custom.Limits.{IsAdmitted, IsWithin}
use api_scanner.Custom.Reports.{IsSupported}
use api_scanner.Custom.Laws.{IsComplete, gather-run, started}

abbrev row_of : CheckRecord → Check
row_of c = c.row

abbrev pub heads_of_rows : List Check → List (Text × Option Text)
heads_of_rows cs = map (λ c. (c.endpoint_id, c.check)) cs

abbrev is_baseline_head : Text × Option Text → Bool
is_baseline_head h = elim h.1 [ none ↦ false | some name ↦ text_eq name (codes "baseline") ]

abbrev is_tested_status : CheckStatus → Bool
is_tested_status CheckStatus.tested = true
is_tested_status _ = false

-- A baseline request that was answered.
abbrev pub is_passed_baseline : Check → Bool
is_passed_baseline c = is_baseline_head (c.endpoint_id, c.check) && is_tested_status c.status

module _ (w : Web) (context : Context) where
  gathered :
      (r : Result Gathered)
      → OnResult ⊥ (IsComplete w context) r
      → (g : Gathered) × (r ≡ Session.ok g) × IsComplete w context g
  gathered (Session.failed f) h = elim h [ ]
  gathered (Session.ok g) h = (g, refl, h)

  -- The session that `gather` ends in.
  abbrev pub final : Session
  final = (gather w context (start w context)).1

  abbrev result : Gathered → EngineResult
  result g = record {
    engine = codes "custom";
    status = (concluded g).0;
    findings = g.tested.findings;
    checks = some (map row_of g.tested.checks);
    request_count = final.budget.count;
    reason = (concluded g).1;
  }

  -- `gather` ends, and `execute` returns what it has.
  execute-result :
      (g : Gathered) × ((gather w context (start w context)).0 ≡ Session.ok g)
      × (execute w context ≡ returned (result g))
      × IsComplete w context g
  unfolding execute
  execute-result =
      let (g, e, h) =
        gathered _ ((gather-run w context).run (start w context) (started w context)).0 in
      (g, e, ap (λ (r : Result Gathered). result_of w context (r, final)) e, h)

  final-IsWithin : IsWithin w context 0 final
  final-IsWithin = ((gather-run w context).run (start w context) (started w context)).1

-- For every web and scan context: each target that the engine sends a request to was admitted by the
-- guard of the scan's allowlist at some look at the network.
pub gather-IsAdmitted :
    (w : Web) (context : Context)
    → All (IsAdmitted w context) (gather w context (start w context)).1.sent
gather-IsAdmitted w context = (final-IsWithin w context).admitted

-- For every web and scan context: `execute` returns a result whose `request_count` is at most the
-- `max_requests` of the scan and at least the number of requests that were sent.
pub execute-request_count :
    (w : Web) (context : Context)
    → (r : EngineResult) × (execute w context ≡ returned r)
      × (length (gather w context (start w context)).1.sent ≤ r.request_count)
      × (r.request_count ≤ context.limits.max_requests)
execute-request_count w context =
    let (g, e, f, h) = execute-result w context in
    let k = final-IsWithin w context in
    let l = k.sent_le in (result w context g, f, omega arith, k.count_le)

-- For every web and scan context: `gather` ends without an exception, and each of its checks that is
-- DETECTED has a finding of its category, endpoint and method.
pub gather-IsSupported :
    (w : Web) (context : Context)
    → (g : Gathered) × ((gather w context (start w context)).0 ≡ Session.ok g)
      × All (IsSupported g.tested.findings) g.tested.checks
gather-IsSupported w context = let (g, e, f, h) = execute-result w context in (g, e, h.supported)
