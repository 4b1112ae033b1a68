-- ===== src/Custom/Payloads.antt =====
-- The payloads of `_input_validation_tests` of app/engines/custom.py, and what its findings say.
use api_scanner.Common.{ℕ, Bool, true, false, some, List, [], ◌∷◌, if◌then◌else◌}
use api_scanner.Common.Text.{Text, codes}
use api_scanner.Common.Sorting.{is_in}
use api_scanner.Domain.{Severity, Confidence}
use api_scanner.Orchestrator.Policy.{Profile, quick, safe, standard, deep, aggressive}
use api_scanner.Custom.Checks.{
  ActiveCheck, sql_injection, nosql_injection, path_traversal, reflected_xss, open_redirect,
  command_injection, ssrf, Issue, issue,
}

-- _limited_points
abbrev pub maximum_points : Profile → ℕ
maximum_points standard = 10
maximum_points deep = 25
maximum_points aggressive = 50
maximum_points quick = 0
maximum_points safe = 0

-- profile in {"STANDARD", "DEEP", "AGGRESSIVE"}
abbrev pub is_active : Profile → Bool
is_active quick = false
is_active safe = false
is_active _ = true

abbrev pub profile_text : Profile → Text
profile_text quick = codes "QUICK"
profile_text safe = codes "SAFE"
profile_text standard = codes "STANDARD"
profile_text deep = codes "DEEP"
profile_text aggressive = codes "AGGRESSIVE"

abbrev pub sql_error_payloads : List Text
sql_error_payloads = codes "'" ∷ codes "\"" ∷ codes "')" ∷ []

-- The payload that is true, and the one that is false.
abbrev pub boolean_payloads : Text → Text × Text
boolean_payloads schema_type =
    if is_in schema_type (codes "integer" ∷ codes "number" ∷ [])
    then (codes "1 OR 1=1", codes "1 AND 1=2")
    else (codes "' OR '1'='1' -- -", codes "' AND '1'='2' -- -")

abbrev deeper_payloads : Profile → List Text
deeper_payloads deep =
    codes "..%252f..%252f..%252fetc%252fpasswd" ∷ codes "....//....//....//etc/passwd" ∷ []
deeper_payloads aggressive =
    codes "..%252f..%252f..%252fetc%252fpasswd" ∷ codes "....//....//....//etc/passwd" ∷ []
deeper_payloads _ = []

abbrev pub traversal_payloads : Profile → List Text
traversal_payloads profile =
    codes "../../../../../../etc/passwd"
    ∷ codes "..\\..\\..\\..\\Windows\\win.ini"
    ∷ codes "..%2f..%2f..%2f..%2fetc%2fpasswd"
    ∷ codes "%2e%2e%2f%2e%2e%2f%2e%2e%2fetc%2fpasswd"
    ∷ deeper_payloads profile

abbrev pub xss_payloads : List Text
xss_payloads =
    codes "\"><svg onload=alert(`API_SCANNER_XSS`)> "
    ∷ codes "</script><script>alert('API_SCANNER_XSS')</script>"
    ∷ codes "'><img src=x onerror=alert('API_SCANNER_XSS')>"
    ∷ []

abbrev pub callback_urls : List Text
callback_urls =
    codes "https://redirect-canary.invalid/api-scanner"
    ∷ codes "//redirect-canary.invalid/api-scanner"
    ∷ []

-- Each payload with its marker.
abbrev pub command_payloads : List (Text × Text)
command_payloads =
    (codes ";printf API_SCANNER_CMD_7F3A", codes "API_SCANNER_CMD_7F3A")
    ∷ (codes "& echo API_SCANNER_CMD_9C2D", codes "API_SCANNER_CMD_9C2D")
    ∷ []

-- What a finding of each check says, but for the evidence.
abbrev pub active_issue : ActiveCheck → Issue
active_issue sql_injection =
    record (issue (codes "SQL injection") (codes "sql-injection") Severity.high Confidence.high
      (codes
        "Untrusted API input can influence a database query, which may expose or modify stored data.")
      (codes
        "Use parameterized queries or prepared statements, constrain input types, and avoid returning database errors.")) {
          cwe = some (codes "CWE-89");
          owasp = some (codes "API8:2023 Security Misconfiguration");
        }
active_issue nosql_injection =
    record (issue (codes "NoSQL injection") (codes "nosql-injection") Severity.high
      Confidence.medium
      (codes "The API appears to interpret an attacker-controlled NoSQL operator.")
      (codes
        "Reject object operators in user input, enforce strict schemas, and build database filters from allowlisted fields.")) {
          cwe = some (codes "CWE-943");
          owasp = some (codes "API8:2023 Security Misconfiguration");
        }
active_issue path_traversal =
    record (issue (codes "Path traversal / local file read") (codes "path-traversal") Severity.high
      Confidence.high
      (codes "An attacker may read files outside the intended application directory.")
      (codes
        "Resolve files against a fixed directory, use opaque identifiers, and reject paths that escape the canonical base directory.")) {
          cwe = some (codes "CWE-22");
          owasp = some (codes "API10:2023 Unsafe Consumption of APIs");
        }
active_issue reflected_xss =
    record (issue (codes "Reflected cross-site scripting") (codes "xss") Severity.high
      Confidence.high
      (codes "Untrusted API input is returned as active HTML and may execute in a browser context.")
      (codes
        "Contextually encode output, return JSON for APIs, validate input, and deploy a restrictive Content Security Policy.")) {
          cwe = some (codes "CWE-79");
          owasp = some (codes "API8:2023 Security Misconfiguration");
        }
active_issue open_redirect =
    record (issue (codes "Open redirect") (codes "open-redirect") Severity.medium Confidence.high
      (codes
        "An attacker can create trusted-looking links that redirect users to an external site.")
      (codes
        "Allowlist relative destinations or map fixed identifiers to approved destinations.")) {
          cwe = some (codes "CWE-601");
        }
active_issue command_injection =
    record (issue (codes "OS command injection") (codes "command-injection") Severity.critical
      Confidence.high
      (codes "Attacker-controlled input appears to execute as an operating-system command.")
      (codes
        "Do not invoke a shell with user input; use fixed argument arrays and strict allowlists.")) {
          cwe = some (codes "CWE-78");
          owasp = some (codes "API8:2023 Security Misconfiguration");
        }
active_issue ssrf =
    record (issue (codes "Server-side request forgery") (codes "ssrf") Severity.high Confidence.high
      (codes "The API server made an outbound request to a scanner-controlled callback URL.")
      (codes
        "Allowlist required outbound destinations, block private and metadata networks, and validate every redirect and resolved address.")) {
          cwe = some (codes "CWE-918");
          owasp = some (codes "API7:2023 Server Side Request Forgery");
        }

-- The finding of the boolean test.
abbrev pub boolean_issue : Issue
boolean_issue = record (active_issue sql_injection) { confidence = Confidence.medium }
