-- ===== src/Scope/Guard.antt =====
-- What `ScopeGuard.validate` admits, against a description of its own.
use api_scanner.Common.{
  ℕ, Bool, true, false, not, ◌&&◌, ◌≡◌, ◌↔◌, ◌⊎◌, inl, inr, refl, sym, ap, Option, none, some, List,
  [], ◌∷◌, arith, Option-cases, any, All, is_empty, Memᴰ, any_sound, any_complete, any-eq-false_iff,
}
use mathlib.Core.Path.{subst}
use api_scanner.Common.Text.{Text, text_eq_iff, before}
use api_scanner.Common.Sorting.{sorted_set}
use api_scanner.Scope.{
  normalise, host_matches, SplitUrl, Net, ok, truthy, Target, ScopeGuard, http, https,
  effective_port, is_forbidden_ip, resolve, validate, parse_target, authorised_host,
  reachable_addresses, clean_url, >>=-ok_inv,
}
use api_scanner.Scope.Hosts.{Covers, host_matches_iff}

-- An URL that the scanner may be pointed at: HTTP, no credentials, a host.
pub record IsPlainUrl (u : SplitUrl) : Type 0 where
  pub scheme : (u.scheme ≡ http) ⊎ (u.scheme ≡ https)
  pub no_username : truthy u.username ≡ false
  pub no_password : truthy u.password ≡ false
  pub some_host : truthy u.hostname ≡ true

-- The host of an URL, which a rule of the allowlist covers.
pub record IsAuthorised (net : Net) (guard : ScopeGuard) (hostname : Option Text) (host : Text)
    : Type 0 where
  pub name : Text
  pub named : hostname ≡ some name
  pub encoded : Text
  pub idna : net.idna name ≡ some encoded
  pub host_eq : host ≡ normalise encoded
  pub rule : Text
  pub listed : Memᴰ rule guard.allowed_hosts
  pub covered : Covers (normalise rule) (normalise host)

-- The addresses found for the host, each of them public unless private targets are allowed.
pub record IsReachable (net : Net) (guard : ScopeGuard) (now : ℕ) (host : Text) (port : ℕ)
    (found : List Text) : Type 0 where
  pub resolved : resolve net now host port ≡ ok found
  pub some_address : is_empty found ≡ false
  pub public : (guard.allow_private ≡ true) ⊎ All (λ a. net.is_global (before b'%' a) ≡ true) found

-- `target` is what the guard makes of an URL that it admits.
pub record Admits (net : Net) (guard : ScopeGuard) (now : ℕ) (url : Text) (target : Target)
    : Type 0 where
  pub parsed : SplitUrl
  pub split : net.urlsplit url ≡ some parsed
  pub plain : IsPlainUrl parsed
  pub authorised : IsAuthorised net guard parsed.hostname target.host
  pub port : ℕ
  pub on_port : effective_port parsed ≡ ok port
  pub found : List Text
  pub reachable : IsReachable net guard now target.host port found
  pub addresses : target.addresses ≡ sorted_set found
  pub clean : target.url ≡ clean_url net parsed

module _ (net : Net) where
  parse_target_sound :
      (url : Text) (u : SplitUrl)
      → parse_target net url ≡ ok u
      → (net.urlsplit url ≡ some u) × IsPlainUrl u
  unfolding parse_target
  parse_target_sound url u h = ground (arith, text_eq_iff u.scheme http, text_eq_iff u.scheme https)

  parse_target_complete :
      (url : Text) (u : SplitUrl)
      → net.urlsplit url ≡ some u
      → IsPlainUrl u
      → parse_target net url ≡ ok u
  unfolding parse_target
  parse_target_complete url u e p =
      ground (arith, text_eq_iff u.scheme http, text_eq_iff u.scheme https)

  authorised_host_sound :
      (guard : ScopeGuard) (hostname : Option Text) (host : Text)
      → authorised_host net guard hostname ≡ ok host
      → IsAuthorised net guard hostname host
  unfolding authorised_host
  authorised_host_sound guard none host h = cc
  authorised_host_sound guard (some name) host h = elim (Option-cases (net.idna name)) [
    | inl e ↦ absurd (ground arith)
    | inr (encoded, e) ↦
        let allowed : any (host_matches (normalise encoded)) guard.allowed_hosts ≡ true =
          ground arith in
        let host_eq : host ≡ normalise encoded = ground arith in
        let (rule, listed, matched) =
          any_sound (host_matches (normalise encoded)) guard.allowed_hosts allowed in
        record {
          name = name;
          named = refl;
          encoded = encoded;
          idna = e;
          host_eq = host_eq;
          rule = rule;
          listed = listed;
          covered = rw host_eq ((host_matches_iff (normalise encoded) rule).0 matched);
        }
  ]

  not_empty :
      (guard : ScopeGuard) {rule : Text}
      → Memᴰ rule guard.allowed_hosts
      → is_empty guard.allowed_hosts ≡ false
  not_empty guard m = go guard.allowed_hosts m
    where
      go : (xs : List Text) {x : Text} → Memᴰ x xs → is_empty xs ≡ false
      go [] m = elim m [ ]
      go (y ∷ ys) m = refl

  authorised_host_complete :
      (guard : ScopeGuard) (hostname : Option Text) (host : Text)
      → IsAuthorised net guard hostname host
      → authorised_host net guard hostname ≡ ok host
  unfolding authorised_host
  authorised_host_complete guard hostname host a =
      let rule_fits : host_matches (normalise a.encoded) a.rule ≡ true =
        (host_matches_iff (normalise a.encoded) a.rule).1 (rw (← a.host_eq) a.covered) in
      rw a.named (
        rw a.idna (
          rw
            (any_complete (host_matches (normalise a.encoded)) guard.allowed_hosts a.listed
              rule_fits)
            (rw (not_empty guard a.listed) (ap ok (sym a.host_eq)))))

  -- No address is forbidden: each is public.
  public_of :
      (xs : List Text)
      → All (λ a. is_forbidden_ip net a ≡ false) xs
      → All (λ a. net.is_global (before b'%' a) ≡ true) xs
  unfolding is_forbidden_ip
  public_of [] h = tt
  public_of (x ∷ xs) (p, h) = (ground arith, public_of xs h)

  of_public :
      (xs : List Text)
      → All (λ a. net.is_global (before b'%' a) ≡ true) xs
      → All (λ a. is_forbidden_ip net a ≡ false) xs
  unfolding is_forbidden_ip
  of_public [] h = tt
  of_public (x ∷ xs) (p, h) = (ground arith, of_public xs h)

  admitted_addresses :
      (private : Bool) (xs : List Text)
      → not private && any (is_forbidden_ip net) xs ≡ false
      → (private ≡ true) ⊎ All (λ a. net.is_global (before b'%' a) ≡ true) xs
  admitted_addresses true xs h = inl refl
  admitted_addresses false xs h =
      inr (public_of xs ((any-eq-false_iff (is_forbidden_ip net) xs).0 h))

  admitted_addresses_conv :
      (private : Bool) (xs : List Text)
      → (private ≡ true) ⊎ All (λ a. net.is_global (before b'%' a) ≡ true) xs
      → not private && any (is_forbidden_ip net) xs ≡ false
  admitted_addresses_conv true xs h = refl
  admitted_addresses_conv false xs (inl h) = cc
  admitted_addresses_conv false xs (inr h) =
      (any-eq-false_iff (is_forbidden_ip net) xs).1 (of_public xs h)

  reachable_addresses_sound :
      (guard : ScopeGuard) (now : ℕ) (host : Text) (port : ℕ) (found : List Text)
      → reachable_addresses net guard now host port ≡ ok found
      → IsReachable net guard now host port found
  unfolding reachable_addresses
  reachable_addresses_sound guard now host port found h =
      let (addresses, resolved, rest) = >>=-ok_inv (resolve net now host port) _ h in
      let same : addresses ≡ found = ground arith in
      record {
        resolved = rw (← same) resolved;
        some_address = ground arith;
        public = admitted_addresses guard.allow_private found (ground arith);
      }

  reachable_addresses_complete :
      (guard : ScopeGuard) (now : ℕ) (host : Text) (port : ℕ) (found : List Text)
      → IsReachable net guard now host port found
      → reachable_addresses net guard now host port ≡ ok found
  unfolding reachable_addresses
  reachable_addresses_complete guard now host port found r =
      rw r.resolved
        (rw r.some_address (rw (admitted_addresses_conv guard.allow_private found r.public) refl))

  module _ (guard : ScopeGuard) (now : ℕ) (url : Text) (target : Target) where
    -- The record of what the steps tell, for the target that the last step builds.
    assemble :
        (parsed : SplitUrl) (host : Text) (port : ℕ) (found : List Text)
        → parse_target net url ≡ ok parsed
        → authorised_host net guard parsed.hostname ≡ ok host
        → effective_port parsed ≡ ok port
        → reachable_addresses net guard now host port ≡ ok found
        → record { url = clean_url net parsed; host = host; addresses = sorted_set found } ≡ target
        → Admits net guard now url target
    assemble parsed host port found p a on_port r e = subst (Admits net guard now url) e (record {
      parsed = parsed;
      split = (parse_target_sound url parsed p).0;
      plain = (parse_target_sound url parsed p).1;
      authorised = authorised_host_sound guard parsed.hostname host a;
      port = port;
      on_port = on_port;
      found = found;
      reachable = reachable_addresses_sound guard now host port found r;
      addresses = refl;
      clean = refl;
    })

    validate_sound : validate net guard now url ≡ ok target → Admits net guard now url target
    unfolding validate
    validate_sound h =
        let (parsed, p, h₁) = >>=-ok_inv (parse_target net url) _ h in
        let (host, a, h₂) = >>=-ok_inv (authorised_host net guard parsed.hostname) _ h₁ in
        let (port, on_port, h₃) = >>=-ok_inv (effective_port parsed) _ h₂ in
        let (found, r, h₄) = >>=-ok_inv (reachable_addresses net guard now host port) _ h₃ in
        assemble parsed host port found p a on_port r (cc h₄)

    validate_complete : Admits net guard now url target → validate net guard now url ≡ ok target
    unfolding validate
    validate_complete a = rw (parse_target_complete url a.parsed a.split a.plain) (
        rw (authorised_host_complete guard a.parsed.hostname target.host a.authorised) (
          rw a.on_port (
            rw (reachable_addresses_complete guard now target.host a.port a.found a.reachable)
              (cc (a.addresses, a.clean)))))

-- For every network, guard, moment, URL and target: `validate` returns the target exactly when the
-- URL is http or https without credentials, a rule of the allowlist covers its encoded and
-- normalised host, its port is valid, the host resolves at that moment to at least one address,
-- every address found is public unless private targets are allowed, and the target holds that
-- host, the rebuilt URL and the sorted addresses.
pub validate_iff :
    (net : Net) (guard : ScopeGuard) (now : ℕ) (url : Text) (target : Target)
    → (validate net guard now url ≡ ok target) ↔ Admits net guard now url target
validate_iff net guard now url target =
    (validate_sound net guard now url target, validate_complete net guard now url target)
