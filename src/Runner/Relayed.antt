-- ===== src/Runner/Relayed.antt =====
-- What one call of the proxy sends, and with which headers.
use api_scanner.Common.{
  ℕ, Bool, true, ◌≡◌, inl, inr, List, [], ◌∷◌, ◌++◌, Bool-cases, All, is_empty,
}
use mathlib.Core.Path.{subst}
use mathlib.Core.List.{append_assoc}
use api_scanner.Common.Text.{Text, codes, text_eq, rstrip, lstrip, starts_with, starts_with-append}
use api_scanner.Scope.{scope_guard}
use api_scanner.Scope.Client.{IsScoped, request-IsScoped}
use api_scanner.Custom.Session.{put}
use api_scanner.Runner.{World, ProxyJob}
use api_scanner.Runner.Proxy.{
  Hop, Call, is_forwarded, filter_headers, target_of, job_client, call_of,
}

-- Every name passes the test.
abbrev pub AllNamed : (Text → Bool) → List (Text × Text) → Type 0
AllNamed keep headers = All (λ h. keep h.0 ≡ true) headers

put-AllNamed :
    (keep : Text → Bool) (name value : Text) (headers : List (Text × Text))
    → keep name ≡ true
    → AllNamed keep headers
    → AllNamed keep (put name value headers)
put-AllNamed keep name value [] n h = (n, tt)
put-AllNamed keep name value ((m, v) ∷ headers) n h = elim (Bool-cases (text_eq m name)) [
  | inl e ↦ rw e (h.0, h.1)
  | inr e ↦ rw e (h.0, put-AllNamed keep name value headers n h.1)
]

filter_headers-AllNamed :
    (keep : Text → Bool) (kept headers : List (Text × Text))
    → AllNamed keep kept
    → AllNamed keep (filter_headers keep kept headers)
unfolding filter_headers
filter_headers-AllNamed keep kept [] h = h
filter_headers-AllNamed keep kept ((name, value) ∷ headers) h = elim (Bool-cases (keep name)) [
  | inl e ↦ rw e (
      filter_headers-AllNamed keep (put name value kept) headers
        (put-AllNamed keep name value kept e h))
  | inr e ↦ rw e (filter_headers-AllNamed keep kept headers h)
]

module _ (w : World) (target_url : Text) (allowed_hosts : List Text) where
  -- A call of the proxy for a job with this target and these hosts: the client of the job made it,
  -- each URL that was sent to was admitted by the guard, there are at most three redirects, and no
  -- hop-by-hop header and no runner token goes along.
  pub record IsRelayed (call : Call) : Type 0 where
    pub scoped :
        IsScoped
          (w.net call.moment call.upstream)
          (record {
            guard = scope_guard allowed_hosts w.allow_private;
            max_response_size = w.max_proxy_body;
            max_redirects = 3;
          })
          true
          4
          call.run
    pub below : starts_with (rstrip b'/' target_url ++ codes "/") call.url ≡ true
    pub clean : AllNamed is_forwarded call.upstream.headers

starts_with-joined : (a b r : Text) → starts_with (a ++ b) (a ++ (b ++ r)) ≡ true
starts_with-joined a b r =
    subst (λ t. starts_with (a ++ b) t ≡ true) (append_assoc a b r) (starts_with-append (a ++ b) r)

target_of-below :
    (w : World) (job : ProxyJob) (hop : Hop)
    → starts_with (rstrip b'/' job.target_url ++ codes "/") (target_of w job hop) ≡ true
target_of-below w job hop = elim (Bool-cases (is_empty (w.urlencode hop.query))) [
  | inl e ↦ rw e (starts_with-joined base slash (lstrip b'/' hop.path))
  | inr e ↦ rw e (
      rw (append_assoc base (slash ++ lstrip b'/' hop.path) (codes "?" ++ w.urlencode hop.query)) (
        starts_with-joined base slash
          (lstrip b'/' hop.path ++ (codes "?" ++ w.urlencode hop.query))))
]
  where
    base : Text
    base = rstrip b'/' job.target_url

    slash : Text
    slash = codes "/"

pub call_of-IsRelayed :
    (w : World) (now : ℕ) (job : ProxyJob) (hop : Hop)
    → IsRelayed w job.target_url job.allowed_hosts (call_of w now job hop)
unfolding call_of
call_of-IsRelayed w now job hop = record {
  scoped = request-IsScoped _ (job_client w job) true (target_of w job hop);
  below = target_of-below w job hop;
  clean = filter_headers-AllNamed is_forwarded [] hop.headers tt;
}
