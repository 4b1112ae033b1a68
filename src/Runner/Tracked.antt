-- ===== src/Runner/Tracked.antt =====
-- What the traffic during a run does to one registered job, and which calls it makes under its id.
use api_scanner.Common.{
  ℕ, ◌+◌, ◌≤◌, ltb, Bool, true, false, ◌≡◌, refl, sym, ap, inl, inr, some, List, [], ◌∷◌,
  Option-cases, Bool-cases, arith, All, All-append, length, tally, tally-append,
}
use mathlib.Core.Path.{subst, ◌∙◌}
use api_scanner.Common.Text.{Text, text_eq, text_eq_iff}
use api_scanner.Budget.{RequestBudget, take, Reading}
use api_scanner.Runner.{World, RunRequest, ProxyJob, Server}
use api_scanner.Runner.Relayed.{IsRelayed, call_of-IsRelayed}
use api_scanner.Common.Dict.{lookup, lookup-insert, lookup-remove}
use api_scanner.Runner.Proxy.{
  Hop, Call, call_of, relay, wuppie_proxy, Traffic, proxy, registered, removed, meanwhile, traffic,
}

-- The job of a run is registered, and `n` of its requests are spent.
pub record IsTracked (request : RunRequest) (id : Text) (n : ℕ) (jobs : List (Text × ProxyJob))
    : Type 0 where
  pub job : ProxyJob
  pub found : lookup id jobs ≡ some job
  pub target_url : job.target_url ≡ request.target_url
  pub allowed_hosts : job.allowed_hosts ≡ request.allowed_hosts
  pub maximum : job.budget.maximum ≡ request.max_requests
  pub spent : job.budget.count ≡ n
  pub within : n ≤ request.max_requests

-- The calls under an id.
abbrev pub of_job : Text → Call → Bool
of_job id call = text_eq call.job_id id

-- The event does not register or remove a job under the id.
abbrev pub IsForeign : Text → Traffic → Type 0
IsForeign id (proxy hop) = Unit
IsForeign id (registered other job) = text_eq other id ≡ false
IsForeign id (removed other) = text_eq other id ≡ false

take_inv :
    (b : RequestBudget) (r : Reading) (b' : RequestBudget)
    → take b r ≡ some b'
    → (b'.maximum ≡ b.maximum) × (b'.count ≡ b.count + 1) × (b.count + 1 ≤ b.maximum)
unfolding take
take_inv b r b' h = ground arith

module _ (w : World) (request : RunRequest) (id : Text) where
  abbrev pub IsOwn : Call → Type 0
  IsOwn call = of_job id call ≡ true → IsRelayed w request.target_url request.allowed_hosts call

  -- The job had `n` requests spent; the server and the calls after it.
  pub record Advances (n : ℕ) (s' : Server) (calls : List Call) : Type 0 where
    pub tracked : IsTracked request id (n + tally (of_job id) calls) s'.jobs
    pub own : All IsOwn calls

  -- A registry under the id of which the same stands.
  moved :
      (n m : ℕ) (jobs jobs' : List (Text × ProxyJob))
      → n ≡ m
      → lookup id jobs' ≡ lookup id jobs
      → IsTracked request id n jobs
      → IsTracked request id m jobs'
  moved n m jobs jobs' e same t = record {
    job = t.job;
    found = same ∙ t.found;
    target_url = t.target_url;
    allowed_hosts = t.allowed_hosts;
    maximum = t.maximum;
    spent = t.spent ∙ e;
    within = omega (arith, t.within);
  }

  stays :
      (n : ℕ) (s s' : Server)
      → lookup id s'.jobs ≡ lookup id s.jobs
      → IsTracked request id n s.jobs
      → Advances n s' []
  stays n s s' same t = record {
    tracked = moved n (n + 0) s.jobs s'.jobs (omega arith) same t;
    own = tt;
  }

  call_of-job :
      (now : ℕ) (job : ProxyJob) (hop : Hop)
      → of_job id (call_of w now job hop) ≡ text_eq hop.job_id id
  unfolding call_of
  call_of-job now job hop = refl

  relay_other-Advances :
      (n : ℕ) (s : Server) (job : ProxyJob) (hop : Hop)
      → text_eq hop.job_id id ≡ false
      → IsTracked request id n s.jobs
      → Advances n (relay w s job hop).server (relay w s job hop).calls
  unfolding relay
  relay_other-Advances n s job hop other t =
      elim (Option-cases (take job.budget (w.reading s.moment))) [
        | inl e ↦ rw (e, relay) (stays n s _ refl t)
        | inr (b, e) ↦
            let uncounted = call_of-job s.moment job hop ∙ other in
            rw (e, relay)
              (record {
                tracked =
                    moved n _ s.jobs _ (rw uncounted (omega arith))
                      (rw lookup-insert (rw other refl)) t;
                own = ((λ h. cc), tt);
              })
      ]

  relay_own-Advances :
      (n : ℕ) (s : Server) (job : ProxyJob) (hop : Hop)
      → lookup hop.job_id s.jobs ≡ some job
      → text_eq hop.job_id id ≡ true
      → IsTracked request id n s.jobs
      → Advances n (relay w s job hop).server (relay w s job hop).calls
  unfolding relay
  relay_own-Advances n s job hop here same t =
      let job_eq : t.job ≡ job = cc (here, t.found, (text_eq_iff hop.job_id id).0 same) in
      elim (Option-cases (take job.budget (w.reading s.moment))) [
        | inl e ↦ rw (e, relay) (stays n s _ refl t)
        | inr (b, e) ↦
            let counted = call_of-job s.moment job hop ∙ same in
            let (maximum, count, room) = take_inv job.budget (w.reading s.moment) b e in
            let spent : job.budget.count ≡ n = ap (λ j. j.budget.count) (sym job_eq) ∙ t.spent in
            let limit : job.budget.maximum ≡ request.max_requests =
              ap (λ j. j.budget.maximum) (sym job_eq) ∙ t.maximum in
            let target_url : job.target_url ≡ request.target_url =
              ap (λ j. j.target_url) (sym job_eq) ∙ t.target_url in
            let allowed_hosts : job.allowed_hosts ≡ request.allowed_hosts =
              ap (λ j. j.allowed_hosts) (sym job_eq) ∙ t.allowed_hosts in
            rw (e, relay)
              (record {
                tracked = record {
                  job = record job { budget = b };
                  found = rw lookup-insert (rw same refl);
                  target_url = target_url;
                  allowed_hosts = allowed_hosts;
                  maximum = maximum ∙ limit;
                  spent = rw counted (omega (arith, count, spent));
                  within = rw counted (omega (arith, room, spent, limit));
                };
                own = (
                  λ _.
                      subst (λ u. IsRelayed w u request.allowed_hosts (call_of w s.moment job hop))
                        target_url
                        (subst
                          (λ hosts. IsRelayed w job.target_url hosts (call_of w s.moment job hop))
                          allowed_hosts (call_of-IsRelayed w s.moment job hop)),
                  tt,
                );
              })
      ]

  wuppie_proxy-Advances :
      (n : ℕ) (s : Server) (hop : Hop)
      → IsTracked request id n s.jobs
      → Advances n (wuppie_proxy w s hop).server (wuppie_proxy w s hop).calls
  unfolding wuppie_proxy
  wuppie_proxy-Advances n s hop t = elim (Option-cases (lookup hop.job_id s.jobs)) [
    | inl e ↦ rw (e, wuppie_proxy) (stays n s s refl t)
    | inr (job, e) ↦
        rw (e, wuppie_proxy)
          (elim (Bool-cases (ltb w.max_proxy_body (length hop.body))) [
            | inl big ↦ rw big (stays n s s refl t)
            | inr small ↦ rw small (elim (Bool-cases (text_eq hop.job_id id)) [
              | inl same ↦ relay_own-Advances n s job hop e same t
              | inr other ↦ relay_other-Advances n s job hop other t
            ])
          ])
  ]

  meanwhile-Advances :
      (n : ℕ) (s : Server) (event : Traffic)
      → IsForeign id event
      → IsTracked request id n s.jobs
      → Advances n (meanwhile w s event).0 (meanwhile w s event).1
  unfolding meanwhile
  meanwhile-Advances n s (proxy hop) h t = wuppie_proxy-Advances n s hop t
  meanwhile-Advances n s (registered other job) h t = stays n s _ (rw lookup-insert (rw h refl)) t
  meanwhile-Advances n s (removed other) h t = stays n s _ (lookup-remove other id s.jobs h) t

  pub traffic-Advances :
      (n : ℕ) (s : Server) (events : List Traffic)
      → All (IsForeign id) events
      → IsTracked request id n s.jobs
      → Advances n (traffic w s events).0 (traffic w s events).1
  unfolding traffic
  traffic-Advances n s [] h t = stays n s s refl t
  traffic-Advances n s (event ∷ events) (h, hs) t =
      let first = meanwhile-Advances n s event h t in
      let rest =
        traffic-Advances (n + tally (of_job id) (meanwhile w s event).1) (meanwhile w s event).0
          events hs first.tracked in
      record {
        tracked =
            moved _ _ _ _
              (omega (
                arith,
                tally-append (of_job id) (meanwhile w s event).1
                    (traffic w (meanwhile w s event).0 events).1,
              ))
              refl rest.tracked;
        own = All-append IsOwn _ _ first.own rest.own;
      }
