-- ===== src/Runner/Spending.antt =====
-- The requests that a run of WuppieFuzz makes through its proxy.
use api_scanner.Common.{
  ℕ, ◌+◌, ◌≤◌, min, true, ◌≡◌, refl, inl, inr, Option, some, Option-cases, arith, All, tally,
}
use api_scanner.Common.Text.{Text}
use api_scanner.Runner.{World, RunRequest, Server, proxy_job, Ending}
use api_scanner.Budget.{request_budget}
use api_scanner.Common.Dict.{lookup}
use api_scanner.Runner.Commands.{Prepared}
use api_scanner.Runner.Proxy.{traffic}
use api_scanner.Runner.Closing.{lookup-register}
use api_scanner.Runner.Tracked.{IsTracked, of_job, IsForeign, IsOwn, traffic-Advances}
use api_scanner.Runner.Run.{
  is_wuppie, refusal, prepare, register, execute, run, Circumstances, RunAnswer, rejected, raised,
  answered, run_process, Processed, timed_out, broken, returned, concluded, completed, gathered,
  effective_duration, Outcome,
}

-- The count of an answer, if it has one, is `n`.
abbrev pub Counts : ℕ → RunAnswer → Type 0
Counts n (rejected status) = Unit
Counts n raised = Unit
Counts n (answered r) = (k : ℕ) → r.request_count ≡ some k → k ≡ n

module _ (w : World) (wuppie : is_wuppie w ≡ true) (request : RunRequest) where
  maximum_eq : (proxy_job w request).budget.maximum ≡ request.max_requests
  unfolding request_budget
  maximum_eq = refl

  count_eq : (proxy_job w request).budget.count ≡ 0
  unfolding request_budget
  count_eq = refl

  registered-IsTracked :
      (s : Server) (id : Text) → IsTracked request id 0 (register w s request id).jobs
  registered-IsTracked s id = record {
    job = proxy_job w request;
    found = lookup-register w wuppie s request id;
    target_url = refl;
    allowed_hosts = refl;
    maximum = maximum_eq;
    spent = count_eq;
    within = omega arith;
  }

  concluded-Counts :
      (id : Text) (n : ℕ) (s : Server) (prepared : Prepared) (ending : Ending) (p : Processed)
      → IsTracked request id n s.jobs
      → Counts n (concluded w request prepared (lookup id s.jobs) ending p)
  unfolding concluded completed gathered
  concluded-Counts id n s prepared ending timed_out t = λ k e. cc
  concluded-Counts id n s prepared ending (broken kind) t = λ k e. cc
  concluded-Counts id n s prepared ending (returned exit stdout stderr) t = rw wuppie (
      rw t.found λ k (e : some (min request.max_requests t.job.budget.count) ≡ some k).
        let bound = t.within in let spent = t.spent in ground arith)

  refusal-Counts :
      (now : ℕ) (token : Option Text) (answer : RunAnswer)
      → refusal w now request token ≡ some answer
      → Counts 0 answer
  unfolding refusal
  refusal-Counts now token (rejected status) e = tt
  refusal-Counts now token raised e = tt
  refusal-Counts now token (answered r) e = λ k c. ground arith

  -- The calls that a run makes under its id, and what it says of their number.
  pub record IsSpent (id : Text) (outcome : Outcome) : Type 0 where
    pub within : tally (of_job id) outcome.calls ≤ request.max_requests
    pub counted : Counts (tally (of_job id) outcome.calls) outcome.answer
    pub own : All (IsOwn w request id) outcome.calls

  execute-IsSpent :
      (s : Server) (c : Circumstances) (prepared : Prepared)
      → IsTracked request c.id 0 s.jobs
      → All (IsForeign c.id) c.events
      → IsSpent c.id (execute w s request c prepared)
  unfolding execute
  execute-IsSpent s c prepared t h =
      let a = traffic-Advances w request c.id 0 s c.events h t in
      record {
        within = omega (arith, a.tracked.within);
        counted =
            let ending = c.process prepared (effective_duration request) in
            let spent = tally (of_job c.id) (traffic w s c.events).1 in
            let sum : 0 + spent ≡ spent = omega arith in
            rw wuppie (
              rw sum at (
                concluded-Counts c.id (0 + spent) (traffic w s c.events).0 prepared ending
                  (run_process w ending) a.tracked));
        own = a.own;
      }

  -- For every WuppieFuzz runner, server, request, token and circumstances in which no other run
  -- registers or removes a job under this run's id: at most `max_requests` calls are made through
  -- the proxy under that id, on whatever path the run ends; an answer that has a request count
  -- says how many they were; and each of them goes below the request's target URL, is sent only to
  -- URLs that the guard of the request's hosts admits, follows at most three redirects, and has no
  -- hop-by-hop header and no runner token.
  pub run-IsSpent :
      (s : Server) (token : Option Text) (c : Circumstances)
      → All (IsForeign c.id) c.events
      → IsSpent c.id (run w s request token c)
  unfolding run
  run-IsSpent s token c h = elim (Option-cases (refusal w s.moment request token)) [
    | inr (answer, e) ↦
        rw (e, run)
          (record {
            within = omega arith;
            counted = refusal-Counts s.moment token answer e;
            own = tt;
          })
    | inl e ↦ elim (Option-cases (prepare w c.writes request c.directory c.id)) [
      | inl p ↦ rw (e, run) (rw (p, run) (record { within = omega arith; counted = tt; own = tt }))
      | inr (prepared, p) ↦
          rw (e, run)
            (rw (p, run)
              (execute-IsSpent (register w s request c.id) c prepared (registered-IsTracked s c.id)
                h))
    ]
  ]
