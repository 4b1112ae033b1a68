-- ===== src/Custom/Checks/Catalogue.antt =====
-- The checks of the custom engine by name: the tables at the end of `_test_endpoint` of
-- app/engines/custom.py.
use api_scanner.Common.{List, [], ◌∷◌}
use api_scanner.Common.Text.{Text, codes}

pub data PassiveCheck : Type 0 where
  security_headers excessive_data_exposure cors_misconfiguration missing_authentication :
      PassiveCheck

pub data ActiveCheck : Type 0 where
  sql_injection nosql_injection path_traversal reflected_xss open_redirect : ActiveCheck
  command_injection ssrf : ActiveCheck

abbrev pub passive_checks : List PassiveCheck
passive_checks =
    security_headers ∷ excessive_data_exposure ∷ cors_misconfiguration ∷ missing_authentication ∷ []

abbrev pub active_checks : List ActiveCheck
active_checks =
    sql_injection ∷ nosql_injection ∷ path_traversal ∷ reflected_xss ∷ open_redirect
    ∷ command_injection ∷ ssrf ∷ []

abbrev pub passive_name : PassiveCheck → Text
passive_name security_headers = codes "security-headers"
passive_name excessive_data_exposure = codes "excessive-data-exposure"
passive_name cors_misconfiguration = codes "cors-misconfiguration"
passive_name missing_authentication = codes "missing-authentication"

abbrev pub active_name : ActiveCheck → Text
active_name sql_injection = codes "sql-injection"
active_name nosql_injection = codes "nosql-injection"
active_name path_traversal = codes "path-traversal"
active_name reflected_xss = codes "reflected-xss"
active_name open_redirect = codes "open-redirect"
active_name command_injection = codes "command-injection"
active_name ssrf = codes "ssrf"

abbrev pub passive_not_applicable_reason : PassiveCheck → Text
passive_not_applicable_reason missing_authentication =
    codes "operation is not documented as requiring authentication"
passive_not_applicable_reason _ = codes "check is limited to retrieval operations"

abbrev pub active_not_applicable_reason : ActiveCheck → Text
active_not_applicable_reason sql_injection = codes "no scalar input was documented"
active_not_applicable_reason nosql_injection = codes "no query or body scalar input was documented"
active_not_applicable_reason path_traversal = codes "no file or path-like input was documented"
active_not_applicable_reason reflected_xss = codes "no scalar input was documented"
active_not_applicable_reason open_redirect = codes "no redirect or URL-like input was documented"
active_not_applicable_reason command_injection = codes "no command-like input was documented"
active_not_applicable_reason ssrf = codes "no URL-like input was documented"

abbrev pub active_techniques : ActiveCheck → List Text
active_techniques sql_injection =
    codes "database-error differential" ∷ codes "boolean true/false differential" ∷ []
active_techniques nosql_injection =
    codes "operator/control differential" ∷ codes "database-error differential" ∷ []
active_techniques path_traversal =
    codes "Unix/Windows local-file marker" ∷ codes "encoded traversal variants" ∷ []
active_techniques reflected_xss = codes "unencoded active HTML reflection" ∷ []
active_techniques open_redirect = codes "absolute/protocol-relative Location header control" ∷ []
active_techniques command_injection = codes "POSIX/Windows non-destructive output canary" ∷ []
active_techniques ssrf = codes "out-of-band HTTP callback" ∷ []
