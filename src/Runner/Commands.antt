-- ===== src/Runner/Commands.antt =====
-- The command lines of engine_runner/main.py and the files that they read: `_nuclei_command`,
-- `_wfuzz_command` and `_wuppie_command`. A path is a text; quotients of the rate are exact.
use api_scanner.Common.{
  ℕ, ◌+◌, ◌-◌, ◌*◌, ◌/◌, min, max, Option, none, some, List, [], ◌∷◌, ◌++◌, leb, take, map,
  if◌then◌else◌,
}
use api_scanner.Common.Text.{Text, codes, rstrip, join}
use api_scanner.Json.{Json, str, arr, obj, Items, nil, cons, Fields, end, field}
use api_scanner.Runner.{World, RunRequest, Rate}
use api_scanner.Runner.Credentials.{authentication_headers}
use api_scanner.Runner.Rewrite.{rewrite_specification}

-- The command, the path of its output, and the files written for it.
pub record Prepared : Type 0 where
  pub command : List Text
  pub output : Text
  pub files : List (Text × Text)

abbrev templates_root : Text
templates_root = codes "/opt/nuclei-templates/http/"

-- NUCLEI_API_TEMPLATES, below their common root
abbrev pub nuclei_api_templates : List Text
nuclei_api_templates =
    map (λ t. templates_root ++ t)
      (codes "misconfiguration/http-missing-security-headers.yaml"
        ∷ codes "vulnerabilities/generic/cors-misconfig.yaml"
        ∷ codes "misconfiguration/database-error.yaml"
        ∷ codes "misconfiguration/express-stack-trace.yaml"
        ∷ codes "misconfiguration/dont-panic-traceback.yaml"
        ∷ codes "exposures/apis/openapi.yaml"
        ∷ codes "exposures/apis/swagger-api.yaml"
        ∷ codes "exposures/apis/redoc-api-docs.yaml"
        ∷ codes "exposures/configs/git-config.yaml"
        ∷ codes "exposures/configs/htpasswd-detection.yaml"
        ∷ codes "exposures/configs/aws-credentials.yaml"
        ∷ codes "exposures/configs/dockerfile-hidden-disclosure.yaml"
        ∷ codes "exposures/logs/access-log-file.yaml"
        ∷ [])

-- rate_count and rate_window: requests per so many seconds
abbrev rate_count : Rate → ℕ
rate_count r = if leb r.denominator r.numerator then max 1 (r.numerator / r.denominator) else 1

abbrev rate_seconds : Rate → ℕ
rate_seconds r =
    if leb r.denominator r.numerator then 1 else (r.denominator + r.numerator - 1) / r.numerator

-- f"{name}: {value}" after a flag
abbrev header_options : Text → List (Text × Text) → List Text
header_options flag [] = []
header_options flag ((name, value) ∷ headers) =
    flag ∷ (name ++ (codes ": " ++ value)) ∷ header_options flag headers

abbrev template_options : List Text → List Text
template_options [] = []
template_options (t ∷ ts) = codes "-templates" ∷ t ∷ template_options ts

-- _nuclei_command; `none` is the KeyError of incomplete credentials.
unfoldable pub nuclei_command : World → RunRequest → Text → Option Prepared
nuclei_command w request directory =
    let output = directory ++ codes "/nuclei.jsonl" in
    elim (authentication_headers w request.authentication) [
      | none ↦ none
      | some headers ↦ some (record {
        command =
            (codes "nuclei"
              ∷ codes "-u"
              ∷ request.target_url
              ∷ codes "-jsonl-export"
              ∷ output
              ∷ codes "-silent"
              ∷ codes "-disable-update-check"
              ∷ codes "-disable-redirects"
              ∷ codes "-rate-limit"
              ∷ w.digits (rate_count request.rate_limit)
              ∷ codes "-rate-limit-duration"
              ∷ (w.digits (rate_seconds request.rate_limit) ++ codes "s")
              ∷ codes "-bulk-size"
              ∷ w.digits request.concurrency
              ∷ codes "-timeout"
              ∷ w.digits (request.request_timeout / 1000)
              ∷ codes "-no-interactsh"
              ∷ [])
            ++ (template_options nuclei_api_templates ++ header_options (codes "-header") headers);
        output = output;
        files = [];
      })
    ]

-- The lines of the payload file: as many as requests are allowed.
unfoldable pub payloads : World → RunRequest → List Text
payloads w request = take request.max_requests w.payload_lines

-- command[1:1] = ["-H", f"{name}: {value}"], so that later headers stand first
abbrev with_headers : List (Text × Text) → List Text → List Text
with_headers [] options = options
with_headers ((name, value) ∷ headers) options =
    with_headers headers (codes "-H" ∷ (name ++ (codes ": " ++ value)) ∷ options)

-- _wfuzz_command
unfoldable pub wfuzz_command : World → RunRequest → Text → Option Prepared
unfolding payloads
wfuzz_command w request directory =
    let output = directory ++ codes "/wfuzz.json" in
    let payload = directory ++ codes "/safe-paths.txt" in
    let rate = request.rate_limit in
    elim (authentication_headers w request.authentication) [
      | none ↦ none
      | some headers ↦ some (record {
        command =
            codes "wfuzz"
            ∷ with_headers headers (
                codes "--no-cache"
                ∷ codes "--hc"
                ∷ codes "404"
                ∷ codes "-t"
                ∷ codes "1"
                ∷ codes "-s"
                ∷ w.quotient rate.denominator rate.numerator
                ∷ codes "-z"
                ∷ (codes "file," ++ payload)
                ∷ codes "-f"
                ∷ (output ++ codes ",json")
                ∷ (rstrip b'/' request.target_url ++ codes "/FUZZ")
                ∷ []);
        output = output;
        files = (payload, join (codes "\n") (payloads w request) ++ codes "\n") ∷ [];
      })
    ]

abbrev pub fields_or_empty : Option Fields → Fields
fields_or_empty none = end
fields_or_empty (some fields) = fields

abbrev fixed_headers : List (Text × Text) → Items
fixed_headers [] = nil
fixed_headers ((name, value) ∷ headers) =
    cons (obj (field (codes "name") (str name) (field (codes "value") (str value) end)))
      (fixed_headers headers)

-- The contents of authentication.json.
abbrev authentication_file : List (Text × Text) → Json
authentication_file headers = obj (
    field (codes "schemaVersion") (str (codes "0.4.0")) (
      field (codes "auth")
        (arr (
          cons
            (obj (
              field (codes "name") (str (codes "scanner"))
                (field (codes "fixedHeaders") (arr (fixed_headers headers)) end)))
            nil))
        end))

-- int(request.max_requests / request.rate_limit)
abbrev pub seconds_needed : RunRequest → ℕ
seconds_needed request =
    request.max_requests * request.rate_limit.denominator / request.rate_limit.numerator

-- The options and the file that credentials add.
abbrev credentials_option : Text → List (Text × Text) → List Text
credentials_option directory [] = []
credentials_option directory (header ∷ headers) =
    codes "--authentication" ∷ (directory ++ codes "/authentication.json") ∷ []

abbrev credentials_files : World → Text → List (Text × Text) → List (Text × Text)
credentials_files w directory [] = []
credentials_files w directory (header ∷ headers) =
    (
      directory ++ codes "/authentication.json",
      w.dump_json (authentication_file (header ∷ headers)),
    )
    ∷ []

-- _wuppie_command
unfoldable pub wuppie_command : World → RunRequest → Text → Text → Option Prepared
wuppie_command w request directory proxy_url =
    let spec = directory ++ codes "/openapi.json" in
    elim (authentication_headers w request.authentication) [
      | none ↦ none
      | some headers ↦ some (record {
        command =
            codes "wuppiefuzz"
            ∷ codes "fuzz"
            ∷ (credentials_option directory headers
                ++ (codes "--target"
                    ∷ proxy_url
                    ∷ codes "--timeout"
                    ∷ w.digits (min request.max_duration (max 1 (seconds_needed request)))
                    ∷ codes "--request-timeout"
                    ∷ w.digits request.request_timeout
                    ∷ codes "--method-mutation-strategy"
                    ∷ codes "follow-spec"
                    ∷ codes "--output-format"
                    ∷ codes "json"
                    ∷ codes "--report"
                    ∷ spec
                    ∷ []));
        output = directory ++ codes "/unused";
        files =
            (
              spec,
              w.dump_json
                  (obj (rewrite_specification w proxy_url (fields_or_empty request.specification))),
            )
            ∷ credentials_files w directory headers;
      })
    ]
