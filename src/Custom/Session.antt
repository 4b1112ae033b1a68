-- ===== src/Custom/Session.antt =====
-- What the engine keeps while it runs, the exceptions that it catches, and the way a request goes:
-- through the budget, the credentials and the scoped client.
use api_scanner.Common.{
  ℕ, suc, Bool, false, Option, none, some, List, [], ◌∷◌, ◌++◌, if◌then◌else◌, inl, inr,
}
use api_scanner.Common.Text.{Text, codes, text_eq}
use api_scanner.Scope
use api_scanner.Scope.{Target, Net, SplitUrl, Response, ScopeGuard, ScopedHttpClient, scope_guard}
use api_scanner.Budget.{RequestBudget, take}
use api_scanner.Custom.{
  Context, Auth, no_auth, bearer, basic, api_key_query, api_key_header, unsupported, Request,
  PreparedRequest, Failure, Fallible, Web,
}

-- The budget, the targets that requests were sent to, and the number of looks at the world outside.
pub record Session : Type 0 where
  pub budget : RequestBudget
  pub sent : List Target
  pub moment : ℕ

pub data Result (A : Type 0) : Type 0 where
  failed : Failure → Result A
  ok : A → Result A

-- An exception leaves the session as it is at that point.
abbrev pub Exec : Type 0 → Type 0
Exec A = Session → Result A × Session

abbrev pub continue : {A B : Type 0} → Result A → (A → Exec B) → Exec B
continue (failed e) f s = (failed e, s)
continue (ok a) f s = f a s

infixl 5 ◌>>=◌ ◌>>◌
abbrev pub ◌>>=◌ : {A B : Type 0} → Exec A → (A → Exec B) → Exec B
◌>>=◌ m f s = continue (m s).0 f (m s).1

abbrev pub ◌>>◌ : {A B : Type 0} → Exec A → Exec B → Exec B
m >> k = m >>= λ _. k

abbrev pub pure : {A : Type 0} → A → Exec A
pure a s = (ok a, s)

abbrev pub lift : {A : Type 0} → Result A → Exec A
lift r s = (r, s)

-- A value that the source may raise an exception for.
abbrev pub raising : {A : Type 0} → Fallible A → Exec A
raising (inl f) s = (failed f, s)
raising (inr a) s = (ok a, s)

abbrev pub recover : {A : Type 0} → (Failure → Exec A) → Result A → Exec A
recover f (failed e) s = f e s
recover f (ok a) s = (ok a, s)

-- try: m; except (httpx.HTTPError, ValueError, RuntimeError) as exc: f exc
abbrev pub attempt : {A : Type 0} → Exec A → (Failure → Exec A) → Exec A
attempt m f s = recover f (m s).0 (m s).1

-- The outcome of `m` as a value, where the source binds a response in the `try`.
abbrev pub tried : {A : Type 0} → Exec A → Exec (Result A)
tried m s = (ok (m s).0, (m s).1)

-- for a in items: ..., with the results in a list
abbrev pub for_each : {A B : Type 0} → (A → Exec B) → List A → Exec (List B)
for_each f [] = pure []
for_each f (a ∷ as') = f a >>= λ b. (for_each f as' >>= λ bs. pure (b ∷ bs))

-- One more look at the world outside.
abbrev pub look : Exec ℕ
look s = (ok s.moment, record s { moment = suc s.moment })

-- headers[name] = value
abbrev pub put : Text → Text → List (Text × Text) → List (Text × Text)
put name value [] = (name, value) ∷ []
put name value ((n, v) ∷ fields) =
    if text_eq n name then (n, value) ∷ fields else (n, v) ∷ put name value fields

-- {**first, **second}
abbrev pub update : List (Text × Text) → List (Text × Text) → List (Text × Text)
update fields [] = fields
update fields ((n, v) ∷ more) = update (put n v fields) more

pub record AppliedAuthentication : Type 0 where
  pub headers : List (Text × Text)
  pub url : Text

module _ (w : Web) where
  -- The query string with one more pair.
  unfoldable pub with_query : ℕ → Request → Text → Text → Text → Result Text
  with_query now request url name value = elim ((w.net now request).urlsplit url) [
    | none ↦ failed (record { kind = codes "ValueError"; detail = [] })
    | some u ↦ ok (
        (w.net now request).urlunsplit u.scheme u.netloc u.path
          (w.urlencode (w.parse_qsl u.query ++ (name, value) ∷ [])))
  ]

  -- apply_auth of app/security/auth.py
  unfoldable pub apply_auth : ℕ → Request → Text → Auth → Result AppliedAuthentication
  unfolding with_query
  apply_auth now request url no_auth = ok (record { headers = []; url = url })
  apply_auth now request url (bearer token) =
      ok (record { headers = (codes "Authorization", codes "Bearer " ++ token) ∷ []; url = url })
  apply_auth now request url (basic username password) = ok (record {
    headers =
        (codes "Authorization", codes "Basic " ++ w.base64 (username ++ (codes ":" ++ password)))
        ∷ [];
    url = url;
  })
  apply_auth now request url (api_key_query name key) = elim (with_query now request url name key) [
    | failed e ↦ failed e
    | ok url' ↦ ok (record { headers = []; url = url' })
  ]
  apply_auth now request url (api_key_header name key) =
      ok (record { headers = (name, key) ∷ []; url = url })
  apply_auth now request url (unsupported kind) = failed (record {
    kind = codes "ValueError";
    detail = codes "unsupported authentication type: " ++ kind;
  })

  -- What `take` says: `none` is the exception.
  abbrev pub after_take : Session → Option RequestBudget → Result (Unit {0}) × Session
  after_take s none = (
    failed (record { kind = codes "RuntimeError"; detail = codes "scan request budget exhausted" }),
    record s { moment = suc s.moment },
  )
  after_take s (some b) = (ok tt, record s { budget = b; moment = suc s.moment })

  -- budget.take()
  unfoldable pub spend : Exec (Unit {0})
  spend s = after_take s (take s.budget (w.reading s.moment))

  -- self.max_response_size, and the client's default of three redirects
  abbrev pub scoped_client : Context → ScopedHttpClient
  scoped_client context = record {
    guard = scope_guard context.allowed_hosts w.allow_private;
    max_response_size = w.max_response_size;
    max_redirects = 3;
  }

  abbrev pub response_or_failure : Scope.Checked Response → Result Response
  response_or_failure (Scope.err e) = failed (w.describe e)
  response_or_failure (Scope.ok r) = ok r

  -- client.request(...): the targets that it sends to are kept.
  unfoldable pub client_request : Context → Bool → Request → Text → Exec Response
  client_request context follow request url s =
      let run = Scope.request (w.net s.moment request) (scoped_client context) follow url in
      (
        response_or_failure run.result,
        record s { sent = s.sent ++ run.sent; moment = suc s.moment },
      )

  -- headers = {**applied.headers, **headers}
  abbrev pub with_credentials : AppliedAuthentication → Request → Request
  with_credentials applied request = record request {
    headers = update applied.headers request.headers;
  }

  abbrev pub send_applied : Context → Request → AppliedAuthentication → Exec Response
  send_applied context request applied =
      client_request context false (with_credentials applied request) applied.url

  -- `_send` after `budget.take()`.
  abbrev pub send_spent : Context → Auth → Request → Text → Exec Response
  send_spent context auth request url = look >>= λ now.
      (lift (apply_auth now request url auth) >>= λ applied. send_applied context request applied)

  -- CustomApiEngine._send
  unfoldable pub send : Context → Auth → Request → Text → Exec Response
  unfolding spend apply_auth client_request
  send context auth request url = spend >> send_spent context auth request url

  -- CustomApiEngine._send_prepared, with PreparedRequest.kwargs: an empty value is left out.
  abbrev pub request_of : Text → PreparedRequest → Request
  request_of method p = record {
    method = method;
    params = p.params;
    headers = p.headers;
    cookies = p.cookies;
    json = p.json_body;
    data_body = elim p.json_body [ none ↦ p.data_body | some body ↦ none ];
  }

  unfoldable pub send_prepared : Context → Auth → Text → PreparedRequest → Exec Response
  unfolding send
  send_prepared context auth method p = send context auth (request_of method p) p.url
