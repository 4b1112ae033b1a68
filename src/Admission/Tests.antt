-- ===== src/Admission/Tests.antt =====
-- Runs of the admission of a scan's hosts.
use api_scanner.Common.{◌≡◌, ◌↔◌, refl, true, false, none, some, [], ◌∷◌}
use api_scanner.Common.Text.{codes, text_eq, lower, rstrip, starts_with, ends_with}
use api_scanner.Scope.{normalise, matches_normalised, host_matches}
use api_scanner.Admission.{
  Settings, ScanCreate, deployment_allowlist, admitted, requested_hosts, strip_wildcard, is_allowed,
  effective_allowed_hosts, IsAcceptable, effective_allowed_hosts_iff,
}

abbrev request : ScanCreate
request = record {
  target_hostname = some (codes "A.x");
  allowed_hosts = codes "*.a.x" ∷ codes "a.x." ∷ [];
  external_project_id = none;
  authorization_reference = none;
}

abbrev settings : Settings
settings = record { target_scope_mode = deployment_allowlist; allowed_targets = codes "a.x" ∷ [] }

effective_allowed_hosts_iff_example :
    (effective_allowed_hosts request settings ≡ admitted (codes "a.x" ∷ codes "*.a.x" ∷ [])) ↔ (
      (codes "a.x" ∷ codes "*.a.x" ∷ [] ≡ requested_hosts request)
      × IsAcceptable request settings.allowed_targets deployment_allowlist)
effective_allowed_hosts_iff_example =
    effective_allowed_hosts_iff request settings (codes "a.x" ∷ codes "*.a.x" ∷ [])

-- A deployment that allows `a.x` alone allows the rule `*.a.x`, which covers a host that no rule of
-- the deployment covers.
widened :
    (is_allowed settings.allowed_targets (codes "*.a.x") ≡ true)
    × (host_matches (codes "b.a.x") (codes "*.a.x") ≡ true)
    × (host_matches (codes "b.a.x") (codes "a.x") ≡ false)
unfolding is_allowed strip_wildcard host_matches matches_normalised normalise lower rstrip
    starts_with ends_with text_eq
widened = (refl, refl, refl)
