-- ===== src/Custom/Answered.antt =====
-- What the baseline record of an endpoint says of its baseline request.
use api_scanner.Common.{
  Bool, true, false, ◌&&◌, ◌≡◌, refl, none, List, [], ◌∷◌, ◌++◌, inl, inr, ◌⊎◌, ap, sym, ◌∙◌,
  All-weaken, any, any-eq-false_iff, arith,
}
use api_scanner.Common.Text.{Text, codes, text_eq, text_eq_sound}
use api_scanner.Scope.{Response}
use api_scanner.Coverage.{CheckStatus}
use api_scanner.Custom.{Auth, Endpoint, Context, Failure, PreparedRequest, Web}
use api_scanner.Custom.Session
use api_scanner.Custom.Session.{Session, Result, send_prepared}
use api_scanner.Custom.Requests.{build_prepared_request}
use api_scanner.Custom.Checks.{CheckRecord, check, Tested, join_tested}
use api_scanner.Custom.Passive.{test_transport}
use api_scanner.Custom.Testing.{baseline_tested, test_baseline, test_prepared, test_endpoint}
use api_scanner.Custom.Logic.{Runs, Runs-bind, Runs-pure, OnResult}
use api_scanner.Custom.PassiveReports.{test_retrieval-IsReport, test_missing_auth-IsReport}
use api_scanner.Custom.TestingReports.{test_active-run}
use api_scanner.Custom.Outcomes.{is_passed_baseline}
use api_scanner.Custom.Exhausted.{is_unsent, IsUnsent, test_endpoint-unanswered}

abbrev pub is_answered : Result Response → Bool
is_answered (Session.failed f) = false
is_answered (Session.ok r) = true

abbrev pub has_answer : CheckRecord → Bool
has_answer c = is_passed_baseline c.row

abbrev is_tested : CheckStatus → Bool
is_tested CheckStatus.tested = true
is_tested _ = false

unsent-untested :
    (name : Text) (status : CheckStatus)
    → is_unsent name status ≡ true
    → text_eq name (codes "baseline") && is_tested status ≡ false
unfolding text_eq
unsent-untested name CheckStatus.tested h =
    rw (text_eq_sound name (codes "insecure-transport") h) refl
unsent-untested name CheckStatus.detected h = ground arith
unsent-untested name CheckStatus.error h = ground arith
unsent-untested name CheckStatus.skipped h = ground arith
unsent-untested name CheckStatus.not_applicable h = ground arith

IsUnsent-answer : (c : CheckRecord) → IsUnsent c → has_answer c ≡ false
IsUnsent-answer c h = rw h.named (unsent-untested h.name c.row.status h.status)

module _ (w : Web) (context : Context) (e : Endpoint) where
  any_result : (r : Result Response) → OnResult Unit (λ _. Unit) r
  any_result (Session.failed f) = tt
  any_result (Session.ok r) = tt

  sends :
      (auth : Auth) (method : Text) (p : PreparedRequest)
      → Runs (λ _. Unit) Unit (λ _. Unit) (send_prepared w context auth method p)
  sends auth method p = record { run = λ s _. (any_result _, tt) }

  abbrev StartsTested : Tested → Type 0
  StartsTested t = (rest : Tested) × (t ≡ join_tested (baseline_tested w context e) rest)

  test_baseline-StartsTested :
      (prepared : PreparedRequest) (r : Response)
      → Runs (λ _. Unit) ⊥ StartsTested (test_baseline w context e prepared r)
  unfolding test_baseline
  test_baseline-StartsTested prepared r =
      Runs-bind _ (test_retrieval-IsReport w context e (λ _. Unit) sends r) (λ a _.
        Runs-bind _ (test_missing_auth-IsReport w context e (λ _. Unit) sends prepared r) (λ b _.
          Runs-bind _ (test_active-run w context e (λ _. Unit) (λ s _. tt) sends r)
            (λ c _. Runs-pure _ _ (join_tested a (join_tested b c), refl))))

Result-cases :
    {A : Type 0} (r : Result A)
    → ((f : Failure) × (r ≡ Session.failed f)) ⊎ ((a : A) × (r ≡ Session.ok a))
Result-cases (Session.failed f) = inl (f, refl)
Result-cases (Session.ok a) = inr (a, refl)

without_exception :
    {A : Type 0} {Q : A → Type 0} (r : Result A)
    → OnResult ⊥ Q r
    → (a : A) × (r ≡ Session.ok a) × Q a
without_exception (Session.failed f) h = elim h [ ]
without_exception (Session.ok a) h = (a, refl, h)

-- A baseline record that is TESTED, somewhere among others.
answer-found :
    (w : Web) (context : Context) (e : Endpoint) (first rest : Tested)
    → any has_answer (join_tested first (join_tested (baseline_tested w context e) rest)).checks
      ≡ true
unfolding check text_eq
answer-found w context e first rest = found first.checks
  where
    found :
        (cs : List CheckRecord)
        → any has_answer (cs ++ ((baseline_tested w context e).checks ++ rest.checks)) ≡ true
    found [] = refl
    found (c ∷ cs) = ground (arith, found cs)

test_endpoint-ended :
    (w : Web) (context : Context) (e : Endpoint) (s after last : Session)
    (prepared : PreparedRequest) (r : Response) (t : Tested)
    → build_prepared_request w e none ≡ inr prepared
    → send_prepared w context context.auth e.method prepared s ≡ (Session.ok r, after)
    → test_baseline w context e prepared r after ≡ (Session.ok t, last)
    → test_endpoint w context e s
      ≡ (Session.ok (join_tested (test_transport w context e prepared.url) t), last)
unfolding test_endpoint test_prepared
test_endpoint-ended w context e s after last prepared r t g h k = rw g (rw h (rw k refl))

-- For every web, context, endpoint, session and request of the endpoint: the tests of the endpoint
-- end, and they have a baseline record that is TESTED exactly if the baseline request was answered.
pub test_endpoint-answered :
    (w : Web) (context : Context) (e : Endpoint) (s : Session) (prepared : PreparedRequest)
    → build_prepared_request w e none ≡ inr prepared
    → (t : Tested) × (after : Session) × (test_endpoint w context e s ≡ (Session.ok t, after))
      × (any has_answer t.checks
          ≡ is_answered (send_prepared w context context.auth e.method prepared s).0)
test_endpoint-answered w context e s prepared g =
    let sent = send_prepared w context context.auth e.method prepared s in
    elim (Result-cases sent.0) [
      | inl (f, h) ↦
          let (t, run, heads, unsent) =
            test_endpoint-unanswered w context e s sent.1 prepared f g
              (ap (λ (r : Result Response). (r, sent.1)) h) in
          (
            t,
            sent.1,
            run,
            (any-eq-false_iff has_answer t.checks).1
                  (All-weaken IsUnsent (λ c. has_answer c ≡ false) t.checks IsUnsent-answer unsent)
                ∙ sym (ap is_answered h),
          )
      | inr (r, h) ↦
          let tested = test_baseline w context e prepared r sent.1 in
          let (t, ended, (rest, split)) =
            without_exception tested.0
              ((test_baseline-StartsTested w context e prepared r).run sent.1 tt).0 in
          let transport = test_transport w context e prepared.url in
          (
            join_tested transport t,
            tested.1,
            test_endpoint-ended w context e s sent.1 tested.1 prepared r t g
                (ap (λ (x : Result Response). (x, sent.1)) h)
                (ap (λ (x : Result Tested). (x, tested.1)) ended),
            rw split (answer-found w context e transport rest) ∙ sym (ap is_answered h),
          )
    ]
