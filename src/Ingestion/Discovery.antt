-- ===== src/Ingestion/Discovery.antt =====
-- app/ingestion/discovery.py: the search for a specification below the target, and the probing of
-- paths if there is none.
use api_scanner.Common.{
  ℕ, suc, ltb, ◌==◌, Bool, true, false, not, ◌&&◌, ◌||◌, Option, none, some, List, [], ◌∷◌, ◌++◌,
  length, is_empty, any, if◌then◌else◌,
}
use api_scanner.Common.Text.{Text, codes, text_eq, starts_with, occurs, lower}
use api_scanner.Common.Dict.{lookup, insert}
use api_scanner.Json.{Json, str, obj, Fields, end, field}
use api_scanner.Domain.{build_id, Confidence, low, medium}
use api_scanner.Scope
use api_scanner.Scope.{Net, SplitUrl, Checked, err, ok, ScopeError, Response, ScopedHttpClient}
use api_scanner.Ingestion.{Reader, EndpointDefinition, ParsedInventory, Parsed, invalid, crashed}
use api_scanner.Ingestion
use api_scanner.Ingestion.Document.{bytes, parse_api_document}

-- COMMON_SPEC_PATHS
abbrev pub common_spec_paths : List Text
common_spec_paths =
    codes "/openapi.json"
    ∷ codes "/openapi.yaml"
    ∷ codes "/openapi.yml"
    ∷ codes "/swagger.json"
    ∷ codes "/swagger.yaml"
    ∷ codes "/api-docs"
    ∷ codes "/v3/api-docs"
    ∷ []

-- The network at each request, by its number and its Accept header; `read_body` is response.json(),
-- with `invalid` for a JSONDecodeError.
pub record Web : Type 0 where
  pub net : ℕ → Text → Net
  pub reader : Reader
  pub split_url : Text → Option SplitUrl
  pub read_body : List ℕ → Parsed Json
  pub describe : ScopeError → Text
  pub digits : ℕ → Text

-- A GET request of the scoped client, with redirects.
pub record Call : Type 0 where
  pub moment : ℕ
  pub accept : Text
  pub url : Text
  pub run : Scope.Run

pub data Seen : Type 0 where
  error : Text → Seen
  status : ℕ → Seen

-- An observation: what a URL gave.
pub record Observation : Type 0 where
  pub url : Text
  pub outcome : Seen

-- response.headers.get("content-type", "").lower()
unfoldable pub content_type : Response → Text
unfolding lookup
content_type response = elim (lookup (codes "content-type") response.headers) [
  | none ↦ []
  | some value ↦ lower value
]

abbrev pub says_json : Response → Bool
says_json response = occurs (codes "json") (content_type response)

abbrev pub spec_types : List Text
spec_types =
    codes "json" ∷ codes "yaml" ∷ codes "yml" ∷ codes "text/plain" ∷ codes "octet-stream" ∷ []

-- {endpoint.endpoint_id: endpoint}
abbrev pub Found : Type 0
Found = List (Text × EndpointDefinition)

-- What a discovery gives: an exception, an inventory, or the endpoints that were found.
pub data Result : Type 0 where
  raised : Result
  inventory : ParsedInventory → Result
  probed : Found → Result

pub record Discovery : Type 0 where
  pub result : Result
  pub observations : List Observation
  pub calls : List Call

module _ (w : Web) (client : ScopedHttpClient) where
  unfoldable pub ask : ℕ → Text → Text → Call
  ask now accept url = record {
    moment = now;
    accept = accept;
    url = url;
    run = Scope.request (w.net now accept) client true url;
  }

  abbrev pub target_or : Option Text → Text → Text
  target_or none url = url
  target_or (some t) url = if is_empty t then url else t

  abbrev or_missing : Text → Text
  or_missing t = if is_empty t then codes "missing" else t

  abbrev pub answer_inventory : ℕ → Text → Response → Parsed ParsedInventory
  answer_inventory max_size target_url response =
      parse_api_document w.reader (bytes response.body) target_url max_size

  -- What `fetch_specification` makes of an answer.
  unfoldable pub read_answer : Text → ℕ → Response → Parsed ParsedInventory
  unfolding content_type
  read_answer target_url max_size response =
      if not (response.status == 200)
      then invalid (codes "specification URL returned HTTP " ++ w.digits response.status)
      else if not (any (λ t. occurs t (content_type response)) spec_types)
      then invalid
          (codes "unsupported specification content type: " ++ or_missing (content_type response))
      else answer_inventory max_size target_url response

  -- fetch_specification; a ScopeError is raised as it is.
  unfoldable pub fetch_specification : Text → ℕ → Option Text → Checked (Parsed ParsedInventory)
  unfolding read_answer
  fetch_specification url max_size target_url =
      elim (ask 0 (codes "application/json, application/yaml") url).run.result [
        | err e ↦ err e
        | ok response ↦ ok (read_answer (target_or target_url url) max_size response)
      ]

  abbrev pub observed : Call → Observation
  observed call = record {
    url = call.url;
    outcome = elim call.run.result [ err e ↦ error (w.describe e) | ok r ↦ status r.status ];
  }

  abbrev pub observing : Call → Discovery → Discovery
  observing call d = record {
    result = d.result;
    observations = observed call ∷ d.observations;
    calls = call ∷ d.calls;
  }

  abbrev pub ending : Call → Result → Discovery
  ending call result = record {
    result = result;
    observations = observed call ∷ [];
    calls = call ∷ [];
  }

  abbrev pub quiet : Result → Discovery
  quiet result = record { result = result; observations = []; calls = [] }

  -- The end of a turn of the first loop: the inventory of an answer, an exception, or the rest.
  abbrev pub after_parse : Call → Parsed ParsedInventory → Discovery → Discovery
  after_parse call (Ingestion.ok found) rest = ending call (inventory found)
  after_parse call (invalid m) rest = observing call rest
  after_parse call crashed rest = ending call raised

  -- GET with the Accept header of a search
  abbrev spec_accept : Text
  spec_accept = codes "application/json, */*"

  -- The loop over COMMON_SPEC_PATHS; `after` is what follows at the moment when it ends.
  unfoldable pub search : ℕ → Text → Text → (ℕ → Discovery) → ℕ → List Text → Discovery
  search max_size target_url base after now [] = after now
  search max_size target_url base after now (path ∷ paths) =
      let call = ask now spec_accept (w.reader.urljoin base path) in
      let rest = search max_size target_url base after (suc now) paths in
      elim call.run.result [
        | err e ↦ observing call rest
        | ok response ↦
            if not (response.status == 200)
            then observing call rest
            else after_parse call (answer_inventory max_size target_url response) rest
      ]

  -- The constructor call of an endpoint that was not documented.
  unfoldable pub found_endpoint : Text → Text → Text → Confidence → EndpointDefinition
  found_endpoint base path source confidence = record {
    endpoint_id = build_id w.reader.digest base path (codes "GET");
    base_url = base;
    path = path;
    method = codes "GET";
    operation_id = none;
    tags = [];
    parameters = [];
    request_body = none;
    responses = end;
    content_types = [];
    auth_required = false;
    source = source;
    confidence = confidence;
  }

  -- endpoints[endpoint.endpoint_id] = endpoint
  unfoldable pub note : EndpointDefinition → Found → Found
  unfolding insert
  note e found = insert e.endpoint_id e found

  abbrev pub is_link : Text → Bool
  is_link t = starts_with (codes "/") t && ltb (length t) 500

  -- The loop over the values of a JSON body.
  unfoldable pub note_links : Text → Found → Fields → Found
  unfolding note found_endpoint
  note_links base found end = found
  note_links base found (field k (str t) fields) =
      note_links base
        (if is_link t
          then note (found_endpoint base t (codes "RESPONSE_LINK") low) found
          else found)
        fields
  note_links base found (field k _ fields) = note_links base found fields

  abbrev pub links_of : Text → Found → Parsed Json → Option Found
  links_of base found (Ingestion.ok (obj fields)) = some (note_links base found fields)
  links_of base found (Ingestion.ok _) = some found
  links_of base found (invalid m) = some found
  links_of base found crashed = none

  -- What an answer adds to the endpoints; `none` is an exception.
  unfoldable pub note_answer : Text → Text → Found → Response → Option Found
  unfolding note note_links found_endpoint
  note_answer base path found response =
      if ltb response.status 500 && (says_json response || not (text_eq path (codes "/")))
      then (let added =
            note
              (found_endpoint base path (codes "CONTROLLED_DISCOVERY")
                (if says_json response then medium else low))
              found in
          if says_json response
          then links_of base added (w.read_body response.body)
          else some added)
      else some found

  abbrev pub rooted : Text → Text
  rooted path = if starts_with (codes "/") path then path else codes "/" ++ path

  -- The loop over the seed paths.
  unfoldable pub probe : Text → ℕ → Found → List Text → Discovery
  unfolding note_answer
  probe base now found [] = quiet (probed found)
  probe base now found (seed ∷ seeds) =
      let path = rooted seed in
      let call = ask now (codes "application/json") (w.reader.urljoin base path) in
      elim call.run.result [
        | err e ↦ observing call (probe base (suc now) found seeds)
        | ok response ↦ elim (note_answer base path found response) [
          | none ↦ ending call raised
          | some found' ↦ observing call (probe base (suc now) found' seeds)
        ]
      ]

  abbrev pub path_or_root : SplitUrl → Text
  path_or_root parsed = if is_empty parsed.path then codes "/" else parsed.path

  abbrev pub base_of : SplitUrl → Text
  base_of parsed = parsed.scheme ++ (codes "://" ++ parsed.netloc)

  -- discover_inventory
  unfoldable pub discover_inventory : Text → ℕ → List Text → Discovery
  unfolding search probe
  discover_inventory target_url max_size user_paths = elim (w.split_url target_url) [
    | none ↦ quiet raised
    | some parsed ↦
        search max_size target_url (base_of parsed)
          (λ now. probe (base_of parsed) now [] (path_or_root parsed ∷ user_paths)) 0
          common_spec_paths
  ]
