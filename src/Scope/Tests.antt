-- ===== src/Scope/Tests.antt =====
-- Runs of the guard and of the client, on a small network.
use api_scanner.Common.{
  ℕ, suc, Bool, true, false, ◌≡◌, ◌↔◌, refl, none, some, Option, List, [], ◌∷◌, if◌then◌else◌,
  is_empty, arith,
}
use api_scanner.Common.Text.{Text, codes, text_eq}
use api_scanner.Scope.{
  Net, SplitUrl, Port, absent, Reply, ScopeGuard, scope_guard, Target, Checked, ok, err,
  ScopedHttpClient, Run, normalise, host_matches, validate, request, http, https,
}
use api_scanner.Scope.Guard.{Admits, validate_iff}
use api_scanner.Scope.Client.{IsScoped, SameHost, request-IsScoped, request-SameHost}

-- Every text is the host of an URL; `r` redirects to `a.x`, and a host has one public address.
abbrev net : Net
net = record {
  urlsplit = λ url. some (record {
    scheme = https;
    username = none;
    password = none;
    hostname = some url;
    port = absent;
    netloc = url;
    path = [];
    query = [];
  });
  urlunsplit = λ scheme netloc path query. netloc;
  urljoin = λ base location. location;
  idna = λ name. if is_empty (normalise name) then none else some name;
  is_ip = λ _. false;
  is_global = λ _. true;
  decode = λ headers body. some body;
  getaddrinfo = λ _ host port. some (codes "1.1.1.1" ∷ []);
  send = λ n url. some (record {
    status = if text_eq url (codes "r") then 302 else 200;
    location = some (codes "a.x");
    headers = [];
    chunks = (1 ∷ 2 ∷ []) ∷ [];
  });
}

abbrev guard : ScopeGuard
guard = scope_guard (codes "*.X" ∷ codes "r" ∷ []) false

abbrev client : ScopedHttpClient
client = record { guard = guard; max_response_size = 10; max_redirects = 2 }

abbrev target : Target
target = record { url = codes "a.x"; host = codes "a.x"; addresses = codes "1.1.1.1" ∷ [] }

admitted : validate net guard 0 (codes "a.x") ≡ ok target
unfolding validate api_scanner.Scope.parse_target text_eq api_scanner.Scope.authorised_host
    normalise api_scanner.Common.Text.rstrip api_scanner.Common.Text.lower scope_guard host_matches
    api_scanner.Scope.matches_normalised api_scanner.Common.Text.starts_with
    api_scanner.Common.Text.ends_with api_scanner.Scope.effective_port
    api_scanner.Scope.reachable_addresses api_scanner.Scope.resolve
    api_scanner.Scope.is_forbidden_ip api_scanner.Common.Sorting.sorted_set
admitted = refl

validate_iff_example :
    (validate net guard 0 (codes "a.x") ≡ ok target) ↔ Admits net guard 0 (codes "a.x") target
validate_iff_example = validate_iff net guard 0 (codes "a.x") target

request-IsScoped_example :
    IsScoped net client true (suc client.max_redirects) (request net client true (codes "r"))
request-IsScoped_example = request-IsScoped net client true (codes "r")

idna_keeps_labels :
    (name encoded : Text)
    → is_empty name ≡ false
    → net.idna name ≡ some encoded
    → is_empty (normalise encoded) ≡ false
idna_keeps_labels name encoded h e = ground arith

request-SameHost_example : SameHost (request net client true (codes "r")).sent
request-SameHost_example = request-SameHost net idna_keeps_labels client true (codes "r")
