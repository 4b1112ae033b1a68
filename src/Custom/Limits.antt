-- ===== src/Custom/Limits.antt =====
-- What the engine sends: each request goes through the budget and the guard. It is about
-- `CustomApiEngine._send` of app/engines/custom.py.
use api_scanner.Common.{
  ℕ, suc, ◌+◌, ◌≤◌, false, ◌≡◌, refl, inl, inr, Option, none, some, Bool-cases, length,
  length-append, leb, All, All-append, All-weaken, arith,
}
use api_scanner.Common.Text.{Text}
use mathlib.Core.Path.{subst}
use mathlib.Core.Option.{some-injective}
use api_scanner.Scope
use api_scanner.Scope.{Target, ScopeGuard, scope_guard}
use api_scanner.Scope.Guard.{Admits}
use api_scanner.Scope.Client.{request-IsScoped}
use api_scanner.Scope.Single.{request-single}
use api_scanner.Budget.{RequestBudget, take}
use api_scanner.Custom.{Context, Auth, Request, PreparedRequest, Web}
use api_scanner.Custom.Session
use api_scanner.Custom.Session.{
  Session, Result, Exec, continue, AppliedAuthentication, update, spend, apply_auth, scoped_client,
  response_or_failure, client_request, after_take, send_applied, send_spent, send, request_of,
  send_prepared,
}
use api_scanner.Custom.Logic.{Runs, OnResult}

module _ (w : Web) (context : Context) where
  abbrev guard : ScopeGuard
  guard = scope_guard context.allowed_hosts w.allow_private

  -- The guard admitted the target, at some look at the network.
  abbrev pub IsAdmitted : Target → Type 0
  IsAdmitted t =
      (moment : ℕ) × (request : Request) × (now : ℕ) × (url : Text) × Admits (w.net moment request)
        guard now url t

  -- `spare` requests have been taken from the budget and not been sent yet.
  pub record IsWithin (spare : ℕ) (s : Session) : Type 0 where
    pub admitted : All IsAdmitted s.sent
    pub sent_le : length s.sent + spare ≤ s.budget.count
    pub count_le : s.budget.count ≤ context.limits.max_requests
    pub maximum_eq : s.budget.maximum ≡ context.limits.max_requests

  pub moved :
      {spare : ℕ} (s : Session)
      → IsWithin spare s
      → IsWithin spare (record s { moment = suc s.moment })
  moved s h = record {
    admitted = h.admitted;
    sent_le = h.sent_le;
    count_le = h.count_le;
    maximum_eq = h.maximum_eq;
  }

  unspent : {spare : ℕ} (s : Session) → IsWithin spare s → IsWithin 0 s
  unspent s h = record {
    admitted = h.admitted;
    sent_le = let k = h.sent_le in omega arith;
    count_le = h.count_le;
    maximum_eq = h.maximum_eq;
  }

  onto_response :
      (r : Scope.Checked Scope.Response) → OnResult Unit (λ _. Unit) (response_or_failure w r)
  onto_response (Scope.err e) = tt
  onto_response (Scope.ok r) = tt

  client_request-IsWithin :
      (request : Request) (url : Text) (s : Session)
      → IsWithin 1 s
      → OnResult Unit (λ _. Unit) (client_request w context false request url s).0
        × IsWithin 0 (client_request w context false request url s).1
  unfolding client_request
  client_request-IsWithin request url s h =
      let net = w.net s.moment request in
      let client = scoped_client w context in
      let run = Scope.request net client false url in
      let scoped = request-IsScoped net client false url in
      (
        onto_response run.result,
        record {
          admitted = All-append IsAdmitted s.sent run.sent h.admitted (
              All-weaken _ IsAdmitted run.sent (λ t (now, url, a). (s.moment, request, now, url, a))
                scoped.admitted);
          sent_le =
              let single = request-single net client url in
              let k = h.sent_le in rw (length-append s.sent run.sent) (omega arith);
          count_le = h.count_le;
          maximum_eq = h.maximum_eq;
        },
      )

  -- What follows the credentials in `_send`.
  applied-IsWithin :
      (request : Request) (r : Result AppliedAuthentication) (s : Session)
      → IsWithin 1 s
      → OnResult Unit (λ _. Unit) (continue r (send_applied w context request) s).0
        × IsWithin 0 (continue r (send_applied w context request) s).1
  applied-IsWithin request (Session.failed f) s h = (tt, unspent s h)
  applied-IsWithin request (Session.ok applied) s h = client_request-IsWithin _ _ s h

  spent :
      (s : Session) (b : RequestBudget)
      → take s.budget (w.reading s.moment) ≡ some b
      → IsWithin 0 s
      → IsWithin 1 (record s { budget = b; moment = suc s.moment })
  unfolding take
  spent s b e h = elim (Bool-cases (leb s.budget.maximum s.budget.count)) [
    | inl f ↦ cc
    | inr f ↦
        subst (λ c. IsWithin 1 (record s { budget = c; moment = suc s.moment }))
          (some-injective _ _ (rw f at e))
          (record {
            admitted = h.admitted;
            sent_le = let k = h.sent_le in omega arith;
            count_le = let k = h.maximum_eq in ground arith;
            maximum_eq = h.maximum_eq;
          })
  ]

  taken-IsWithin :
      (auth : Auth) (request : Request) (url : Text) (s : Session) (o : Option RequestBudget)
      → take s.budget (w.reading s.moment) ≡ o
      → IsWithin 0 s
      → let t = after_take w s o in
        OnResult Unit (λ _. Unit) (continue t.0 (λ _. send_spent w context auth request url) t.1).0
        × IsWithin 0 (continue t.0 (λ _. send_spent w context auth request url) t.1).1
  taken-IsWithin auth request url s none e h = (tt, moved s h)
  taken-IsWithin auth request url s (some b) e h =
      applied-IsWithin request _ _ (moved _ (spent s b e h))

  pub send-run :
      (auth : Auth) (request : Request) (url : Text)
      → Runs (IsWithin 0) Unit (λ _. Unit) (send w context auth request url)
  unfolding send spend
  send-run auth request url = record { run = λ s h. taken-IsWithin auth request url s _ refl h }

  pub send_prepared-run :
      (auth : Auth) (method : Text) (p : PreparedRequest)
      → Runs (IsWithin 0) Unit (λ _. Unit) (send_prepared w context auth method p)
  unfolding send_prepared
  send_prepared-run auth method p = send-run auth (request_of w method p) p.url
