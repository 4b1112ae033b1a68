-- ===== src/Admission.antt =====
-- `effective_allowed_hosts` of app/services/scan_service.py: the hosts that a new scan may reach.
-- The host name of the target is what `urlsplit` gives.
mod Tests
use mathlib.Core.Path.{subst}
use api_scanner.Common.{
  ℕ, ◌≡◌, ◌≢◌, ◌↔◌, ◌⊎◌, inl, inr, refl, ap, sym, ◌∙◌, Bool, true, false, not, ◌||◌, ◌==◌, Option,
  none, some, List, [], ◌∷◌, ◌++◌, map, select, any, All, arith, if◌then◌else◌, is_empty,
  Bool-cases, Memᴰ, any_sound, any_complete,
}
use api_scanner.Common.Text.{Text, codes, text_eq, text_eq_sound, text_eq_iff}
use api_scanner.Common.Sorting.{is_in}
use api_scanner.Domain.{or_empty}
use api_scanner.Scope.{normalise, host_matches, truthy}
use api_scanner.Scope.Hosts.{Covers, host_matches_iff}

pub data ScopeMode : Type 0 where
  deployment_allowlist platform_managed : ScopeMode

pub record Settings : Type 0 where
  pub target_scope_mode : ScopeMode
  pub allowed_targets : List Text

pub record ScanCreate : Type 0 where
  pub target_hostname : Option Text
  pub allowed_hosts : List Text
  pub external_project_id : Option Text
  pub authorization_reference : Option Text

pub data Admission : Type 0 where
  admitted : List Text → Admission
  platform_authorization_required : List Text → Admission
  scope_violation : List Text → Admission

-- list(dict.fromkeys(hosts)), with the keys so far
unfoldable pub from_keys : List Text → List Text → List Text
from_keys keys [] = keys
from_keys keys (h ∷ hs) = from_keys (if is_in h keys then keys else keys ++ h ∷ []) hs

unfoldable pub requested_hosts : ScanCreate → List Text
unfolding from_keys
requested_hosts request =
    from_keys []
      (normalise (or_empty request.target_hostname) ∷ map normalise request.allowed_hosts)

-- host.lstrip("*.")
unfoldable pub strip_wildcard : Text → Text
strip_wildcard [] = []
strip_wildcard (c ∷ cs) = if c == b'*' || c == b'.' then strip_wildcard cs else c ∷ cs

unfoldable pub is_allowed : List Text → Text → Bool
unfolding strip_wildcard
is_allowed rules host =
    any (λ rule. host_matches (strip_wildcard host) rule || text_eq host rule) rules

-- The fields that a platform-managed target lacks.
unfoldable pub missing : ScanCreate → List Text
missing request =
    (if truthy request.external_project_id then [] else codes "external_project_id" ∷ [])
    ++ (if truthy request.authorization_reference then [] else codes "authorization_reference" ∷ [])

-- The requested hosts that no rule of the deployment allows.
unfoldable pub outside : List Text → List Text → List Text
unfolding is_allowed
outside rules hosts = select (λ h. not (is_allowed rules h)) hosts

-- The tests of the two modes.
unfoldable pub decide : ScanCreate → List Text → ScopeMode → Admission
unfolding requested_hosts missing outside
decide request rules platform_managed =
    if is_empty (missing request)
    then admitted (requested_hosts request)
    else platform_authorization_required (missing request)
decide request rules deployment_allowlist =
    if is_empty rules || is_empty (outside rules (requested_hosts request))
    then admitted (requested_hosts request)
    else scope_violation (outside rules (requested_hosts request))

unfoldable pub effective_allowed_hosts : ScanCreate → Settings → Admission
unfolding decide
effective_allowed_hosts request settings =
    decide request settings.allowed_targets settings.target_scope_mode

is_in-append : (h : Text) (xs ys : List Text) → is_in h (xs ++ ys) ≡ is_in h xs || is_in h ys
is_in-append h [] ys = refl
is_in-append h (x ∷ xs) ys = ground (arith, is_in-append h xs ys)

-- A host that is a key already adds nothing.
known :
    (h x : Text) (keys hs : List Text)
    → is_in x keys ≡ true
    → is_in h keys || is_in h hs ≡ is_in h keys || (text_eq h x || is_in h hs)
known h x keys hs e = elim (Bool-cases (text_eq h x)) [
  | inr f ↦ rw f refl
  | inl f ↦
      let same : is_in h keys ≡ true =
        subst (λ y. is_in y keys ≡ true) (sym (text_eq_sound h x f)) e in
      rw same refl
]

is_in-from_keys :
    (h : Text) (keys hs : List Text) → is_in h (from_keys keys hs) ≡ is_in h keys || is_in h hs
unfolding from_keys
is_in-from_keys h keys [] = ground arith
is_in-from_keys h keys (x ∷ hs) = elim (Bool-cases (is_in x keys)) [
  | inl e ↦ rw e (is_in-from_keys h keys hs ∙ known h x keys hs e)
  | inr e ↦
      rw e (ground (arith, is_in-from_keys h (keys ++ x ∷ []) hs, is_in-append h keys (x ∷ [])))
]

-- A name that begins with no star or dot.
abbrev pub StartsPlain : Text → Type 0
StartsPlain [] = Unit
StartsPlain (c ∷ cs) = (c == b'*' || c == b'.') ≡ false

-- The host is the name after stars and dots, and the name begins with neither.
pub record IsBare (host name : Text) : Type 0 where
  pub marks : Text
  pub only_marks : All (λ c. (c ≡ b'*') ⊎ (c ≡ b'.')) marks
  pub split : host ≡ marks ++ name
  pub plain : StartsPlain name

-- A rule covers the bare name of the host, or is the host itself.
abbrev pub IsPermitted : List Text → Text → Type 0
IsPermitted rules host =
    (rule : Text) × Memᴰ rule rules
    × (((name : Text) × IsBare host name × Covers (normalise rule) (normalise name))
        ⊎ (host ≡ rule))

strip-IsBare : (host : Text) → IsBare host (strip_wildcard host)
unfolding strip_wildcard
strip-IsBare [] = record { marks = []; only_marks = tt; split = refl; plain = tt }
strip-IsBare (c ∷ cs) = elim (Bool-cases (c == b'*' || c == b'.')) [
  | inl e ↦
      let h = strip-IsBare cs in
      rw e (record {
        marks = c ∷ h.marks;
        only_marks = (ground arith, h.only_marks);
        split = ap (◌∷◌ c) h.split;
        plain = h.plain;
      })
  | inr e ↦ rw e (record { marks = []; only_marks = tt; split = refl; plain = e })
]

strip-append :
    (marks name : Text)
    → All (λ c. (c ≡ b'*') ⊎ (c ≡ b'.')) marks
    → StartsPlain name
    → strip_wildcard (marks ++ name) ≡ name
unfolding strip_wildcard
strip-append [] [] h k = refl
strip-append [] (c ∷ cs) h k = rw k refl
strip-append (c ∷ marks) name (h, hs) k =
    let mark : c == b'*' || c == b'.' ≡ true = ground arith in
    rw mark (strip-append marks name hs k)

is_allowed_iff :
    (rules : List Text) (host : Text) → (is_allowed rules host ≡ true) ↔ IsPermitted rules host
unfolding is_allowed
is_allowed_iff rules host = (
  λ e.
      let (rule, m, h) =
        any_sound (λ rule. host_matches (strip_wildcard host) rule || text_eq host rule) rules e in
      (
        rule,
        m,
        elim (Bool-cases (host_matches (strip_wildcard host) rule)) [
          | inl k ↦ inl (
            strip_wildcard host,
            strip-IsBare host,
            (host_matches_iff (strip_wildcard host) rule).0 k,
          )
          | inr k ↦ inr (text_eq_sound host rule (ground arith))
        ],
      ),
  λ (rule, m, h).
      any_complete (λ rule. host_matches (strip_wildcard host) rule || text_eq host rule) rules m
        (elim h [
          | inl (name, b, covered) ↦
              let bare : strip_wildcard host ≡ name =
                rw b.split (strip-append b.marks name b.only_marks b.plain) in
              let matched = (host_matches_iff name rule).1 covered in rw bare (rw matched refl)
          | inr same ↦ let equal = (text_eq_iff host rule).1 same in ground arith
        ]),
)

-- What makes a request acceptable: under a platform, its two references; under an allowlist that is
-- not empty, a rule for each host.
abbrev pub IsAcceptable : ScanCreate → List Text → ScopeMode → Type 0
IsAcceptable request rules platform_managed =
    (truthy request.external_project_id ≡ true) × (truthy request.authorization_reference ≡ true)
IsAcceptable request rules deployment_allowlist =
    (is_empty rules ≡ true) ⊎ All (IsPermitted rules) (requested_hosts request)

none_outside :
    (rules hs : List Text) → (is_empty (outside rules hs) ≡ true) ↔ All (IsPermitted rules) hs
unfolding outside
none_outside rules [] = (λ _. tt, λ _. refl)
none_outside rules (h ∷ hs) = elim (Bool-cases (is_allowed rules h)) [
  | inl e ↦ rw e (
    λ x. ((is_allowed_iff rules h).0 e, (none_outside rules hs).0 x),
    λ (_, x). (none_outside rules hs).1 x,
  )
  | inr e ↦ rw e (
    λ x. absurd (ground arith),
    λ (x, _). let allowed = (is_allowed_iff rules h).1 x in absurd (ground arith),
  )
]

abbrev is_admitted : Admission → Bool
is_admitted (admitted hosts) = true
is_admitted _ = false

branch_iff :
    (b : Bool) (requested hosts : List Text) (refusal : Admission)
    → is_admitted refusal ≡ false
    → ((if b then admitted requested else refusal) ≡ admitted hosts)
      ↔ ((hosts ≡ requested) × (b ≡ true))
branch_iff true requested hosts refusal h = (λ e. (ground arith, refl), λ (same, _). cc same)
branch_iff false requested hosts refusal h =
    (λ e. absurd (ground (arith, ap is_admitted e, h)), λ (_, e). absurd (ground arith))

missing_iff :
    (request : ScanCreate)
    → (is_empty (missing request) ≡ true) ↔ IsAcceptable request [] platform_managed
unfolding missing
missing_iff request = (λ e. (ground arith, ground arith), λ (p, q). ground arith)

listed_iff :
    (request : ScanCreate) (rules : List Text)
    → (is_empty rules || is_empty (outside rules (requested_hosts request)) ≡ true)
      ↔ IsAcceptable request rules deployment_allowlist
listed_iff request rules = elim (Bool-cases (is_empty rules)) [
  | inl e ↦ rw e (λ _. inl refl, λ _. refl)
  | inr e ↦ rw e (
    λ x. inr ((none_outside rules (requested_hosts request)).0 x),
    λ x. elim x [
      | inl y ↦ absurd (ground arith)
      | inr y ↦ (none_outside rules (requested_hosts request)).1 y
    ],
  )
]

decide_iff :
    (request : ScanCreate) (rules : List Text) (mode : ScopeMode) (hosts : List Text)
    → (decide request rules mode ≡ admitted hosts)
      ↔ ((hosts ≡ requested_hosts request) × IsAcceptable request rules mode)
unfolding decide
decide_iff request rules platform_managed hosts =
    let (to, from) =
      branch_iff (is_empty (missing request)) (requested_hosts request) hosts
        (platform_authorization_required (missing request)) refl in
    (
      λ e. ((to e).0, (missing_iff request).0 (to e).1),
      λ (same, ok). from (same, (missing_iff request).1 ok),
    )
decide_iff request rules deployment_allowlist hosts =
    let (to, from) =
      branch_iff (is_empty rules || is_empty (outside rules (requested_hosts request)))
        (requested_hosts request) hosts (scope_violation (outside rules (requested_hosts request)))
        refl in
    (
      λ e. ((to e).0, (listed_iff request rules).0 (to e).1),
      λ (same, ok). from (same, (listed_iff request rules).1 ok),
    )

-- For every request, deployment and list of hosts: the list is admitted exactly when it is that of
-- the requested hosts and, if the platform manages the targets, the request names its project and
-- its authorization, or otherwise the deployment has no allowlist or, for each of the hosts, a rule
-- that is the host or covers the host without the stars and dots at its beginning; so the rule `a.x`
-- permits the host `*.a.x`.
pub effective_allowed_hosts_iff :
    (request : ScanCreate) (settings : Settings) (hosts : List Text)
    → (effective_allowed_hosts request settings ≡ admitted hosts) ↔ (
        (hosts ≡ requested_hosts request)
        × IsAcceptable request settings.allowed_targets settings.target_scope_mode)
unfolding effective_allowed_hosts
effective_allowed_hosts_iff request settings hosts =
    decide_iff request settings.allowed_targets settings.target_scope_mode hosts

-- For every request and host: the host is requested exactly when it is the target's, in lower case
-- and without trailing dots, or one of the policy's so normalised.
pub is_in-requested_hosts :
    (request : ScanCreate) (h : Text)
    → is_in h (requested_hosts request)
      ≡ text_eq h (normalise (or_empty request.target_hostname))
        || is_in h (map normalise request.allowed_hosts)
unfolding requested_hosts
is_in-requested_hosts request h =
    is_in-from_keys h []
      (normalise (or_empty request.target_hostname) ∷ map normalise request.allowed_hosts)
