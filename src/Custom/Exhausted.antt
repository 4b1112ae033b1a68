-- ===== src/Custom/Exhausted.antt =====
-- The tests of an endpoint when its baseline request fails, as it does once the requests of the scan
-- are used up.
use api_scanner.Common.{
  suc, ◌≤◌, ◌≡◌, refl, none, some, leb, true, false, arith, Bool, Bool-cases, inl, inr, not, ◌||◌,
  Option, List, [], ◌∷◌, ◌++◌, All, All-append, is_empty, map, sym, ◌∙◌, ◌⊎◌,
}
use api_scanner.Common.Text.{Text, codes, text_eq, starts_with, lower}
use api_scanner.Common.Sorting.{is_in}
use api_scanner.Coverage.{CheckStatus}
use api_scanner.Budget.{take}
use api_scanner.Custom.{Endpoint, Context, Failure, MutationPoint, PreparedRequest, Fallible, Web}
use mathlib.Core.Bool.{false≢true}
use api_scanner.Custom.Session
use api_scanner.Custom.Session.{Session, Result, send, send_prepared, spend}
use api_scanner.Custom.Requests.{build_prepared_request, is_prepared}
use api_scanner.Custom.Checks.{
  CheckRecord, check, request_failure, Tested, join_tested, PassiveCheck, ActiveCheck,
  passive_checks, active_checks, passive_name, active_name, active_candidates,
  active_not_applicable_reason, security_headers, excessive_data_exposure, cors_misconfiguration,
  missing_authentication, sql_injection, nosql_injection, path_traversal, reflected_xss,
  open_redirect, command_injection, ssrf, passive_not_applicable_reason,
}
use api_scanner.Custom.Passive.{
  test_transport, baseline_failed, passive_skipped, active_skipped, passive_applicability,
}
use api_scanner.Custom.Reports.{heads, named, join-IsReport}
use api_scanner.Custom.PassiveReports.{
  passive_names, active_names, test_transport-IsReport, baseline_failed-IsReport,
}
use api_scanner.Custom.TestingReports.{endpoint_names}
use api_scanner.Custom.Testing.{test_prepared, test_endpoint}

-- The RuntimeError of `take`.
abbrev pub exhausted : Failure
exhausted = record { kind = codes "RuntimeError"; detail = codes "scan request budget exhausted" }

take-exhausted :
    (w : Web) (s : Session)
    → s.budget.maximum ≤ s.budget.count
    → take s.budget (w.reading s.moment) ≡ none
unfolding take
take-exhausted w s h =
    let e : leb s.budget.maximum s.budget.count ≡ true = ground arith in rw e refl

Fallible-cases :
    {A : Type 0} (x : Fallible A) → ((f : Failure) × (x ≡ inl f)) ⊎ ((a : A) × (x ≡ inr a))
Fallible-cases (inl f) = inl (f, refl)
Fallible-cases (inr a) = inr (a, refl)

abbrev later : List Text
later = passive_names ++ active_names

-- What a check of the name says when nothing could be sent: only the URL is looked at.
abbrev pub is_unsent : Text → CheckStatus → Bool
is_unsent name CheckStatus.tested = text_eq name (codes "insecure-transport")
is_unsent name CheckStatus.detected = text_eq name (codes "insecure-transport")
is_unsent name CheckStatus.error = text_eq name (codes "baseline")
is_unsent name CheckStatus.skipped = is_in name later
is_unsent name CheckStatus.not_applicable = is_in name later

abbrev is_given : Option Text → Bool
is_given none = false
is_given (some reason) = not (is_empty reason)

-- The record of a check that sent nothing, with a reason unless the URL was enough.
pub record IsUnsent (c : CheckRecord) : Type 0 where
  pub name : Text
  pub named : c.row.check ≡ some name
  pub status : is_unsent name c.row.status ≡ true
  pub counted : c.row.request_count ≡ 0
  pub reason : (is_given c.row.reason || text_eq name (codes "insecure-transport")) ≡ true

All-map :
    {A : Type 0} (f : A → CheckRecord) (as' : List A)
    → ((a : A) → IsUnsent (f a))
    → All IsUnsent (map f as')
All-map f [] h = tt
All-map f (a ∷ as') h = (h a, All-map f as' h)

module _ (w : Web) (context : Context) (e : Endpoint) where
  unsent :
      (name : Text) (status : CheckStatus) (points : List MutationPoint) (reason : Text)
      (techniques : List Text)
      → is_unsent name status ≡ true
      → is_empty reason ≡ false
      → IsUnsent (check e name status points 0 (some reason) techniques)
  unfolding check
  unsent name status points reason techniques h k = record {
    name = name;
    named = refl;
    status = h;
    counted = refl;
    reason = rw k refl;
  }

  passive-later : (c : PassiveCheck) → is_in (passive_name c) later ≡ true
  unfolding text_eq
  passive-later security_headers = refl
  passive-later excessive_data_exposure = refl
  passive-later cors_misconfiguration = refl
  passive-later missing_authentication = refl

  active-later : (c : ActiveCheck) → is_in (active_name c) later ≡ true
  unfolding text_eq
  active-later sql_injection = refl
  active-later nosql_injection = refl
  active-later path_traversal = refl
  active-later reflected_xss = refl
  active-later open_redirect = refl
  active-later command_injection = refl
  active-later ssrf = refl

  passive-reason : (c : PassiveCheck) → is_empty (passive_not_applicable_reason c) ≡ false
  passive-reason missing_authentication = refl
  passive-reason security_headers = refl
  passive-reason excessive_data_exposure = refl
  passive-reason cors_misconfiguration = refl

  active-reason : (c : ActiveCheck) → is_empty (active_not_applicable_reason c) ≡ false
  active-reason sql_injection = refl
  active-reason nosql_injection = refl
  active-reason path_traversal = refl
  active-reason reflected_xss = refl
  active-reason open_redirect = refl
  active-reason command_injection = refl
  active-reason ssrf = refl

  module _ (reason : Text) (given : is_empty reason ≡ false) where
    passive-IsUnsent : (c : PassiveCheck) → IsUnsent (passive_skipped w context e reason c)
    passive-IsUnsent c = elim (Bool-cases (passive_applicability w context e c)) [
      | inl h ↦ rw h (unsent _ _ _ _ _ (passive-later c) given)
      | inr h ↦ rw h (unsent _ _ _ _ _ (passive-later c) (passive-reason c))
    ]

    active-IsUnsent : (c : ActiveCheck) → IsUnsent (active_skipped w context e reason c)
    active-IsUnsent c = elim (Bool-cases (is_empty (active_candidates w e c))) [
      | inl h ↦ rw h (unsent _ _ _ _ _ (active-later c) (active-reason c))
      | inr h ↦ rw h (unsent _ _ _ _ _ (active-later c) given)
    ]

  transport-IsUnsent : (url : Text) → All IsUnsent (test_transport w context e url).checks
  unfolding test_transport check text_eq
  transport-IsUnsent url = elim (Bool-cases (starts_with (codes "http://") (lower url))) [
    | inl h ↦ rw h (
      record {
        name = codes "insecure-transport";
        named = refl;
        status = refl;
        counted = refl;
        reason = refl;
      },
      tt,
    )
    | inr h ↦ rw h (
      record {
        name = codes "insecure-transport";
        named = refl;
        status = refl;
        counted = refl;
        reason = refl;
      },
      tt,
    )
  ]

  failed-IsUnsent : (f : Failure) → All IsUnsent (baseline_failed w context e f).checks
  unfolding baseline_failed text_eq request_failure
  failed-IsUnsent f =
      let reason = request_failure (codes "baseline request failed") f in
      (
        unsent _ _ _ _ _ refl refl,
        All-append IsUnsent (map (passive_skipped w context e reason) passive_checks)
            (map (active_skipped w context e reason) active_checks)
            (All-map _ passive_checks (passive-IsUnsent reason refl))
            (All-map _ active_checks (active-IsUnsent reason refl)),
      )

-- For every web, context, endpoint, session, request of the endpoint and failure of its baseline
-- request: the tests of the endpoint end, and no request follows that one. There is a record for each of
-- the thirteen checks, with no request: that of the transport, which looks at the URL only, is TESTED
-- or DETECTED, that of the baseline is an ERROR, and each of the others is SKIPPED or NOT_APPLICABLE;
-- all but that of the transport give a reason.
pub test_endpoint-unanswered :
    (w : Web) (context : Context) (e : Endpoint) (s after : Session) (prepared : PreparedRequest)
    (f : Failure)
    → build_prepared_request w e none ≡ inr prepared
    → send_prepared w context context.auth e.method prepared s ≡ (Session.failed f, after)
    → (t : Tested) × (test_endpoint w context e s ≡ (Session.ok t, after))
      × (heads t.checks ≡ named e endpoint_names)
      × All IsUnsent t.checks
unfolding test_endpoint test_prepared
test_endpoint-unanswered w context e s after prepared f g h =
    let transport = test_transport w context e prepared.url in
    let stopped = baseline_failed w context e f in
    (
      join_tested transport stopped,
      rw g (rw h refl),
      (join-IsReport e (test_transport-IsReport w context e prepared.url)
          (baseline_failed-IsReport w context e f)).checked,
      All-append IsUnsent transport.checks stopped.checks
          (transport-IsUnsent w context e prepared.url) (failed-IsUnsent w context e f),
    )

pub send_prepared-exhausted :
    (w : Web) (context : Context) (method : Text) (prepared : PreparedRequest) (s : Session)
    → s.budget.maximum ≤ s.budget.count
    → send_prepared w context context.auth method prepared s
      ≡ (Session.failed exhausted, record s { moment = suc s.moment })
unfolding send_prepared send spend
send_prepared-exhausted w context method prepared s h = rw (take-exhausted w s h) refl

-- For every web, context, endpoint that has a request, and session whose budget is used up: the tests
-- of the endpoint end, nothing is sent, and the budget is as before; the record of each of the
-- thirteen checks is as after a baseline request that failed.
pub test_endpoint-exhausted :
    (w : Web) (context : Context) (e : Endpoint) (s : Session)
    → is_prepared w e ≡ true
    → s.budget.maximum ≤ s.budget.count
    → (t : Tested) × (test_endpoint w context e s
        ≡ (Session.ok t, record s { moment = suc s.moment }))
      × (heads t.checks ≡ named e endpoint_names)
      × All IsUnsent t.checks
test_endpoint-exhausted w context e s p h =
    elim (Fallible-cases (build_prepared_request w e none)) [
      | inl (f, g) ↦ absurd (false≢true (sym (rw (is_prepared, g) refl) ∙ p))
      | inr (prepared, g) ↦
          test_endpoint-unanswered w context e s _ prepared exhausted g
            (send_prepared-exhausted w context e.method prepared s h)
    ]
