-- ===== src/Scope/Client.antt =====
-- What `ScopedHttpClient.request` sends, and what it returns.
use api_scanner.Common.{
  ℕ, zero, suc, ◌+◌, ◌≤◌, Bool, true, false, ◌||◌, ◌==◌, not, ◌≡◌, ◌⊎◌, inl, inr, refl, Option,
  none, some, List, [], ◌∷◌, ◌++◌, arith, Bool-cases, Option-cases, All, is_empty, length,
  length-append, ltb, if◌then◌else◌,
}
use api_scanner.Common.Text.{Text, text_eq, text_eq_iff}
use api_scanner.Scope.{
  response_of, normalise, Net, ScopeError, redirect_failed, redirect_host, Checked, ok, err, Target,
  validate, Response, ScopedHttpClient, read_body, Verdict, done, onward, Run, stopped, sending,
  judge, dispatch, pin, is_redirect, truthy, request_loop, request,
}
use api_scanner.Scope.Guard.{Admits, validate_iff}

pub Checked-cases :
    (r : Checked Target) → ((e : ScopeError) × (r ≡ err e)) ⊎ ((t : Target) × (r ≡ ok t))
Checked-cases (ok t) = inr (t, refl)
Checked-cases (err e) = inl (e, refl)

pub Verdict-cases :
    (v : Verdict) → ((r : Checked Response) × (v ≡ done r)) ⊎ ((u : Text) × (v ≡ onward u))
Verdict-cases (done r) = inl (r, refl)
Verdict-cases (onward u) = inr (u, refl)

-- The content of a response is that of a body within the size limit.
abbrev pub HasBodyWithin : Net → ℕ → Response → Type 0
HasBodyWithin net limit r =
    (body : List ℕ) × (length body ≤ limit) × (net.decode r.headers body ≡ some r.body)

abbrev pub IsWithin : Net → ℕ → Checked Response → Type 0
IsWithin net limit (ok r) = HasBodyWithin net limit r
IsWithin net limit (err e) = Unit

read_body-le :
    (limit : ℕ) (body : List ℕ) (chunks : List (List ℕ)) (whole : List ℕ)
    → length body ≤ limit
    → read_body limit (length body) body chunks ≡ some whole
    → length whole ≤ limit
unfolding read_body
read_body-le limit body [] whole h e = ground arith
read_body-le limit body (chunk ∷ chunks) whole h e =
    let fits : ltb limit (length body + length chunk) ≡ false = ground arith in
    let size : length (body ++ chunk) ≡ length body + length chunk = length-append body chunk in
    read_body-le limit (body ++ chunk) chunks whole (ground arith) (rw size (ground arith))

module _ (net : Net) (client : ScopedHttpClient) (follow_redirects : Bool) where
  abbrev VerdictWithin : Verdict → Type 0
  VerdictWithin (done r) = IsWithin net client.max_response_size r
  VerdictWithin (onward u) = Unit

  judge-within :
      (n : ℕ) (t : Target) (r : Response)
      → HasBodyWithin net client.max_response_size r
      → VerdictWithin (judge net client follow_redirects n t r)
  unfolding judge
  judge-within n t r h = elim (Bool-cases (not (is_redirect r.status) || not follow_redirects)) [
    | inl e ↦ rw (e, judge) h
    | inr e ↦
        rw (e, judge)
          (elim (Bool-cases (n == client.max_redirects)) [
            | inl f ↦ rw f tt
            | inr f ↦ rw f (located r.location)
          ])
  ]
    where
      located :
          (l : Option Text)
          → VerdictWithin (elim l as (λ _. Verdict) [
            | none ↦ done (ok r)
            | some location ↦
                if is_empty location then done (ok r) else onward (net.urljoin t.url location)
          ])
      located none = h
      located (some location) = elim (Bool-cases (is_empty location)) [
        | inl e ↦ rw e h
        | inr e ↦ rw e tt
      ]

  dispatch-within : (n : ℕ) (t : Target) → VerdictWithin (dispatch net client follow_redirects n t)
  unfolding dispatch
  dispatch-within n t = elim (Option-cases (net.send n t.url)) [
    | inl e ↦ rw (e, dispatch) tt
    | inr (reply, e) ↦
        rw (e, dispatch)
          (elim (Option-cases (read_body client.max_response_size 0 [] reply.chunks)) [
            | inl f ↦ rw f tt
            | inr (body, f) ↦ rw f (elim (Option-cases (net.decode reply.headers body)) [
              | inl g ↦ rw g tt
              | inr (content, g) ↦ rw g (
                  judge-within n t (response_of reply content) (
                    body,
                    read_body-le client.max_response_size [] reply.chunks body (omega arith) f,
                    g,
                  ))
            ])
          ])
  ]

  -- Induction over the rounds of a request: what holds of a run that stops before a dispatch, of
  -- one whose last dispatch it is, and of one that goes on, holds of every run.
  module _ (P : ℕ → Option Text → Run → Type 0)
      (stop : (left : ℕ) (original : Option Text) (e : ScopeError) → P left original (stopped e))
      (last : (left n : ℕ) (url : Text) (original : Option Text) (t : Target) (r : Checked Response)
        → validate net client.guard n url ≡ ok t
        → text_eq t.host (pin net client follow_redirects original t.host) ≡ true
        → dispatch net client follow_redirects n t ≡ done r
        → P (suc left) original (record { sent = t ∷ []; result = r }))
      (more : (left n : ℕ) (url : Text) (original : Option Text) (t : Target) (run : Run)
        → validate net client.guard n url ≡ ok t
        → text_eq t.host (pin net client follow_redirects original t.host) ≡ true
        → P left (some (pin net client follow_redirects original t.host)) run
        → P (suc left) original (sending t run)) where
    request_loop_induction :
        (left n : ℕ) (current : Text) (original : Option Text)
        → P left original (request_loop net client follow_redirects left n current original)
    unfolding request_loop
    request_loop_induction zero n current original = stop zero original redirect_failed
    request_loop_induction (suc left) n current original =
        elim (Checked-cases (validate net client.guard n current)) [
          | inl (e, h) ↦ rw (h, request_loop) (stop (suc left) original e)
          | inr (t, h) ↦
              rw (h, request_loop)
                (elim (Bool-cases
                  (text_eq t.host (pin net client follow_redirects original t.host))) [
                    | inr f ↦ rw f (stop (suc left) original redirect_host)
                    | inl f ↦
                        rw f (elim (Verdict-cases (dispatch net client follow_redirects n t)) [
                          | inl (r, d) ↦ rw d (last left n current original t r h f d)
                          | inr (u, d) ↦ rw d (
                              more left n current original t _ h f (
                                request_loop_induction left (suc n) u
                                  (some (pin net client follow_redirects original t.host))))
                        ])
                  ])
        ]

  -- What holds of the rest of a run, with `left` rounds to go.
  pub record IsScoped (left : ℕ) (run : Run) : Type 0 where
    pub admitted : All (λ t. (now : ℕ) × (url : Text) × Admits net client.guard now url t) run.sent
    pub count : length run.sent ≤ left
    pub within : IsWithin net client.max_response_size run.result

  request_loop-IsScoped :
      (left n : ℕ) (current : Text) (original : Option Text)
      → IsScoped left (request_loop net client follow_redirects left n current original)
  request_loop-IsScoped =
      request_loop_induction (λ left _ run. IsScoped left run)
        (λ left _ e. record { admitted = tt; count = omega arith; within = tt })
        (λ left n url _ t r h _ d. record {
          admitted = ((n, url, (validate_iff net client.guard n url t).0 h), tt);
          count = omega arith;
          within = rw d at (dispatch-within n t);
        })
        (λ left n url _ t run h _ s. record {
          admitted = ((n, url, (validate_iff net client.guard n url t).0 h), s.admitted);
          count = omega (arith, s.count);
          within = s.within;
        })

  -- Once a host is pinned, all that is sent goes to it.
  abbrev GoesTo : Option Text → List Target → Type 0
  GoesTo none [] = Unit
  GoesTo none (t ∷ ts) = All (λ u. u.host ≡ t.host) ts
  GoesTo (some host) ts = All (λ u. u.host ≡ host) ts

  module _
      (idna_keeps_labels : (name encoded : Text)
        → is_empty name ≡ false
        → net.idna name ≡ some encoded
        → is_empty (normalise encoded) ≡ false) where
    host_not_empty :
        (now : ℕ) (url : Text) (t : Target)
        → Admits net client.guard now url t
        → is_empty t.host ≡ false
    host_not_empty now url t a = rw a.authorised.host_eq (
        idna_keeps_labels a.authorised.name a.authorised.encoded
          (named a.parsed.hostname a.plain.some_host a.authorised.named) a.authorised.idna)
      where
        named :
            (hostname : Option Text) {name : Text}
            → truthy hostname ≡ true
            → hostname ≡ some name
            → is_empty name ≡ false
        named none h e = cc
        named (some x) h e = ground arith

    -- An original host that is set is not the empty text.
    abbrev IsSetHost : Option Text → Type 0
    IsSetHost none = Unit
    IsSetHost (some host) = is_empty host ≡ false

    GoesTo-last :
        (original : Option Text) (t : Target)
        → IsSetHost original
        → text_eq t.host (pin net client follow_redirects original t.host) ≡ true
        → GoesTo original (t ∷ [])
    GoesTo-last none t i h = tt
    GoesTo-last (some host) t i h = ((text_eq_iff t.host host).0 (rw i at h), tt)

    GoesTo-more :
        (original : Option Text) (t : Target) (ts : List Target)
        → IsSetHost original
        → text_eq t.host (pin net client follow_redirects original t.host) ≡ true
        → GoesTo (some (pin net client follow_redirects original t.host)) ts
        → GoesTo original (t ∷ ts)
    GoesTo-more none t ts i h k = k
    GoesTo-more (some host) t ts i h k = ((text_eq_iff t.host host).0 (rw i at h), rw i at k)

    pinned :
        (original : Option Text) (host : Text)
        → IsSetHost original
        → is_empty host ≡ false
        → is_empty (pin net client follow_redirects original host) ≡ false
    pinned none host i h = h
    pinned (some o) host i h = rw i i

    request_loop-GoesTo :
        (left n : ℕ) (current : Text) (original : Option Text)
        → IsSetHost original
        → GoesTo original (request_loop net client follow_redirects left n current original).sent
    request_loop-GoesTo =
        request_loop_induction (λ _ original run. IsSetHost original → GoesTo original run.sent)
          (λ _ original e i. nothing original)
          (λ left n url original t r h f d i. GoesTo-last original t i f)
          (λ left n url original t run h f k i. GoesTo-more original t run.sent i f (
            k (
              pinned original t.host i
                (host_not_empty n url t ((validate_iff net client.guard n url t).0 h)))))
      where
        nothing : (original : Option Text) → GoesTo original []
        nothing none = tt
        nothing (some host) = tt

-- For every network, client, redirect mode and URL: each URL that `request` sends to was admitted
-- by the guard at some moment, at most `max_redirects + 1` requests are sent, and the content of a
-- response that is returned is what its headers make of a body of at most `max_response_size` bytes.
pub request-IsScoped :
    (net : Net) (client : ScopedHttpClient) (follow_redirects : Bool) (url : Text)
    → IsScoped net client follow_redirects
        (suc client.max_redirects)
        (request net client follow_redirects url)
unfolding request
request-IsScoped net client follow_redirects url =
    request_loop-IsScoped net client follow_redirects (suc client.max_redirects) 0 url none

-- All the targets of a run have the host of the first one.
abbrev pub SameHost : List Target → Type 0
SameHost [] = Unit
SameHost (t ∷ ts) = All (λ u. u.host ≡ t.host) ts

-- For every network whose IDNA codec gives a name with a character a text that keeps one other than
-- dots, and for every client, redirect mode and URL: all requests of one call, redirects included,
-- go to the host of the first.
pub request-SameHost :
    (net : Net)
    → ((name encoded : Text)
        → is_empty name ≡ false
        → net.idna name ≡ some encoded
        → is_empty (normalise encoded) ≡ false)
    → (client : ScopedHttpClient) (follow_redirects : Bool) (url : Text)
    → SameHost (request net client follow_redirects url).sent
unfolding request
request-SameHost net idna_keeps_labels client follow_redirects url = same _ (
    request_loop-GoesTo net client follow_redirects idna_keeps_labels (suc client.max_redirects) 0
      url none tt)
  where
    same : (ts : List Target) → GoesTo net client follow_redirects none ts → SameHost ts
    same [] h = h
    same (t ∷ ts) h = h
