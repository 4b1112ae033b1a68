-- ===== src/Scope.antt =====
-- app/security/scope.py: the host allowlist, the guard that admits a URL, and the HTTP client that
-- validates each redirect. Python's URL functions, the IDNA codec, `ipaddress`, the resolver and
-- `httpx` are the fields of `Net`; the number that `getaddrinfo` and `send` take is the moment.
pub mod Hosts
pub mod Guard
pub mod Client
pub mod Single
mod Tests
use api_scanner.Common.{
  ℕ, zero, suc, ◌+◌, Bool, true, false, not, ◌&&◌, ◌||◌, Option, none, some, List, [], ◌∷◌, ◌++◌,
  ltb, ◌==◌, if◌then◌else◌, any, drop, length, is_empty, map, ◌≡◌, refl,
}
use api_scanner.Common.Text.{Text, codes, text_eq, starts_with, ends_with, rstrip, lower, before}
use api_scanner.Common.Sorting.{sorted_set, is_in}

-- host.lower().rstrip(".")
unfoldable pub normalise : Text → Text
normalise host = rstrip b'.' (lower host)

abbrev pub wildcard : Text
wildcard = codes "*."

-- The body of `_host_matches` on the two normalised texts.
unfoldable pub matches_normalised : Text → Text → Bool
matches_normalised host rule =
    if starts_with wildcard rule
    then ends_with (drop 1 rule) host && not (text_eq host (drop 2 rule))
    else text_eq host rule

unfoldable pub host_matches : Text → Text → Bool
host_matches host rule = matches_normalised (normalise host) (normalise rule)

pub data Port : Type 0 where
  absent invalid : Port
  number : ℕ → Port

-- What `urlsplit` gives.
pub record SplitUrl : Type 0 where
  pub scheme : Text
  pub username : Option Text
  pub password : Option Text
  pub hostname : Option Text
  pub port : Port
  pub netloc : Text
  pub path : Text
  pub query : Text

-- An HTTP response as `httpx` streams it; `location` is the header of that name, and the names in
-- `headers` are in lower case.
pub record Reply : Type 0 where
  pub status : ℕ
  pub location : Option Text
  pub headers : List (Text × Text)
  pub chunks : List (List ℕ)

pub record Net : Type 0 where
  pub urlsplit : Text → Option SplitUrl
  pub urlunsplit : Text → Text → Text → Text → Text
  pub urljoin : Text → Text → Text
  pub idna : Text → Option Text
  pub is_ip : Text → Bool
  pub is_global : Text → Bool
  pub getaddrinfo : ℕ → Text → ℕ → Option (List Text)
  pub send : ℕ → Text → Option Reply
  pub decode : List (Text × Text) → List ℕ → Option (List ℕ)

pub data ScopeError : Type 0 where
  unsupported_scheme userinfo no_hostname outside_allowlist invalid_port unresolvable : ScopeError
  no_address forbidden_address redirect_host redirect_limit redirect_failed : ScopeError
  malformed_url response_too_large transport : ScopeError

-- The errors that are a `ScopeViolation`.
abbrev pub is_violation : ScopeError → Bool
is_violation malformed_url = false
is_violation response_too_large = false
is_violation transport = false
is_violation _ = true

pub data Checked (A : Type 0) : Type 0 where
  err : ScopeError → Checked A
  ok : A → Checked A

infixl 5 ◌>>=◌ ◌>>◌
-- `do` binds a value, or drops it.
abbrev pub ◌>>=◌ : {A : Type 0} {B : Type 0} → Checked A → (A → Checked B) → Checked B
◌>>=◌ (err e) next = err e
◌>>=◌ (ok value) next = next value

abbrev pub ◌>>◌ : {B : Type 0} → Checked (Unit {0}) → Checked B → Checked B
◌>>◌ (err e) after = err e
◌>>◌ (ok done) after = after

-- raise, if the test holds
abbrev pub refuse : Bool → ScopeError → Checked (Unit {0})
refuse true e = err e
refuse false e = ok tt

abbrev pub or_raise : {A : Type 0} → Option A → ScopeError → Checked A
or_raise none e = err e
or_raise (some a) e = ok a

-- What a successful chain tells of its first step.
pub >>=-ok_inv :
    {A B : Type 0} (first : Checked A) (next : A → Checked B) {end : B}
    → (first >>= next) ≡ ok end
    → (value : A) × (first ≡ ok value) × (next value ≡ ok end)
>>=-ok_inv (err e) next chain = cc
>>=-ok_inv (ok value) next chain = (value, refl, chain)

-- Python's truth of an optional text.
abbrev pub truthy : Option Text → Bool
truthy none = false
truthy (some s) = not (is_empty s)

pub record Target : Type 0 where
  pub url : Text
  pub host : Text
  pub addresses : List Text

pub record ScopeGuard : Type 0 where
  pub allowed_hosts : List Text
  pub allow_private : Bool

-- ScopeGuard.__init__
unfoldable pub scope_guard : List Text → Bool → ScopeGuard
scope_guard hosts private = record { allowed_hosts = map normalise hosts; allow_private = private }

abbrev pub http : Text
http = codes "http"

abbrev pub https : Text
https = codes "https"

-- parsed.port or (443 if parsed.scheme == "https" else 80)
unfoldable pub effective_port : SplitUrl → Checked ℕ
effective_port u =
    let default : ℕ = if text_eq u.scheme https then 443 else 80 in
    elim u.port [
      | absent ↦ ok default
      | invalid ↦ err invalid_port
      | number p ↦ ok (if p == 0 then default else p)
    ]

module _ (net : Net) where
  unfoldable pub is_forbidden_ip : Text → Bool
  is_forbidden_ip value = not (net.is_global (before b'%' value))

  unfoldable pub resolve : ℕ → Text → ℕ → Checked (List Text)
  resolve now host port =
      if net.is_ip (before b'%' host)
      then ok (host ∷ [])
      else or_raise (net.getaddrinfo now host port) unresolvable

  -- The tests of `validate` on the URL itself.
  unfoldable pub parse_target : Text → Checked SplitUrl
  parse_target url = do
    parsed ← or_raise (net.urlsplit url) malformed_url
    refuse (not (text_eq parsed.scheme http || text_eq parsed.scheme https)) unsupported_scheme
    refuse (truthy parsed.username || truthy parsed.password) userinfo
    refuse (not (truthy parsed.hostname)) no_hostname
    ok parsed

  -- The host, encoded and normalised, if the allowlist has it.
  unfoldable pub authorised_host : ScopeGuard → Option Text → Checked Text
  authorised_host guard hostname = do
    name ← or_raise hostname no_hostname
    encoded ← or_raise (net.idna name) malformed_url
    refuse
        (is_empty guard.allowed_hosts
          || not (any (host_matches (normalise encoded)) guard.allowed_hosts))
        outside_allowlist
    ok (normalise encoded)

  -- The addresses of the host, if the guard lets the scanner reach them.
  unfoldable pub reachable_addresses : ScopeGuard → ℕ → Text → ℕ → Checked (List Text)
  reachable_addresses guard now host port = do
    addresses ← resolve now host port
    refuse (is_empty addresses) no_address
    refuse (not guard.allow_private && any is_forbidden_ip addresses) forbidden_address
    ok addresses

  -- parsed.path or "/"
  abbrev pub clean_url : SplitUrl → Text
  clean_url u =
      net.urlunsplit u.scheme u.netloc (if is_empty u.path then codes "/" else u.path) u.query

  -- ScopeGuard.validate
  unfoldable pub validate : ScopeGuard → ℕ → Text → Checked Target
  validate guard now url = do
    parsed ← parse_target url
    host ← authorised_host guard parsed.hostname
    port ← effective_port parsed
    addresses ← reachable_addresses guard now host port
    ok (record { url = clean_url parsed; host = host; addresses = sorted_set addresses })

-- What the client hands back for a response that it read to the end.
pub record Response : Type 0 where
  pub status : ℕ
  pub location : Option Text
  pub headers : List (Text × Text)
  pub body : List ℕ

pub record ScopedHttpClient : Type 0 where
  pub guard : ScopeGuard
  pub max_response_size : ℕ
  pub max_redirects : ℕ

-- The loop over `response.aiter_bytes()`: `size` and `body` are the bytes read so far.
unfoldable pub read_body : ℕ → ℕ → List ℕ → List (List ℕ) → Option (List ℕ)
read_body limit size body [] = some body
read_body limit size body (chunk ∷ chunks) =
    let rest = read_body limit (size + length chunk) (body ++ chunk) chunks in
    if ltb limit (size + length chunk) then none else rest

abbrev pub is_redirect : ℕ → Bool
is_redirect s = s == 301 || s == 302 || s == 303 || s == 307 || s == 308

-- httpx.Response(response.status_code, headers=response.headers, content=body, ...), whose content is
-- what `Net.decode` makes of the body.
abbrev pub response_of : Reply → List ℕ → Response
response_of reply body = record {
  status = reply.status;
  location = reply.location;
  headers = reply.headers;
  body = body;
}

-- One round's end: the request returns or raises, or it goes on to another URL.
pub data Verdict : Type 0 where
  done : Checked Response → Verdict
  onward : Text → Verdict

-- The requests that were sent, in order, and what the caller gets.
pub record Run : Type 0 where
  pub sent : List Target
  pub result : Checked Response

abbrev pub stopped : ScopeError → Run
stopped e = record { sent = []; result = err e }

abbrev pub sending : Target → Run → Run
sending t r = record { sent = t ∷ r.sent; result = r.result }

module _ (net : Net) (client : ScopedHttpClient) (follow_redirects : Bool) where
  -- After the body is read: the tests on status, redirect budget and Location.
  unfoldable pub judge : ℕ → Target → Response → Verdict
  judge n target r =
      if not (is_redirect r.status) || not follow_redirects
      then done (ok r)
      else if n == client.max_redirects
      then done (err redirect_limit)
      else elim r.location [
        | none ↦ done (ok r)
        | some location ↦
            if is_empty location then done (ok r) else onward (net.urljoin target.url location)
      ]

  -- One dispatch to a validated target.
  unfoldable pub dispatch : ℕ → Target → Verdict
  unfolding judge read_body
  dispatch n target = elim (net.send n target.url) [
    | none ↦ done (err transport)
    | some reply ↦ elim (read_body client.max_response_size 0 [] reply.chunks) [
      | none ↦ done (err response_too_large)
      | some body ↦ elim (net.decode reply.headers body) [
        | none ↦ done (err transport)
        | some content ↦ judge n target (response_of reply content)
      ]
    ]
  ]

  -- original_host or validated.host
  abbrev pub pin : Option Text → Text → Text
  pin none host = host
  pin (some original) host = if is_empty original then host else original

  -- The `for` loop, with the rounds left: `range(max_redirects + 1)`.
  unfoldable pub request_loop : ℕ → ℕ → Text → Option Text → Run
  request_loop zero n current original = stopped redirect_failed
  request_loop (suc left) n current original = elim (validate net client.guard n current) [
    | err e ↦ stopped e
    | ok target ↦ elim (text_eq target.host (pin original target.host)) [
      | false ↦ stopped redirect_host
      | true ↦ elim (dispatch n target) [
        | done r ↦ record { sent = target ∷ []; result = r }
        | onward url ↦
            sending target (request_loop left (suc n) url (some (pin original target.host)))
      ]
    ]
  ]

  -- ScopedHttpClient.request
  unfoldable pub request : Text → Run
  unfolding request_loop dispatch
  request url = request_loop (suc client.max_redirects) 0 url none
