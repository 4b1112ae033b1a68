-- ===== src/Ingestion/Document.antt =====
-- `load_document` and `parse_api_document` of app/ingestion/openapi.py.
use api_scanner.Common.{ℕ, ltb, Option, none, some, List, [], ◌∷◌, length, is_empty, if◌then◌else◌}
use api_scanner.Common.Text.{Text, codes, rstrip}
use api_scanner.Json.{Json, obj, Fields, get}
use api_scanner.Ingestion.{
  Reader, EndpointDefinition, ParsedInventory, Parsed, ok, invalid, ◌>>=◌, or_crash, each_field,
}
use api_scanner.Ingestion.Servers.{servers}
use api_scanner.Ingestion.Operations.{path_endpoints}

pub data Raw : Type 0 where
  text : Text → Raw
  bytes : List ℕ → Raw
  dict : Fields → Raw

abbrev too_large : Text
too_large = codes "specification exceeds MAX_SPEC_SIZE"

abbrev or_invalid : Option Json → Text → Parsed Json
or_invalid none m = invalid m
or_invalid (some v) m = ok v

-- json.loads(text), or else yaml.safe_load(text)
abbrev load_text : Reader → Text → Parsed Json
load_text r t = elim (r.load_json t) [
  | some v ↦ ok v
  | none ↦ or_invalid (r.load_yaml t) (codes "invalid JSON or YAML specification")
]

abbrev root_dict : Json → Parsed Fields
root_dict (obj fields) = ok fields
root_dict _ = invalid (codes "specification root must be an object")

unfoldable pub load_bytes : Reader → ℕ → List ℕ → Parsed Fields
load_bytes r max_size serialized =
    if ltb max_size (length serialized)
    then invalid too_large
    else (do t ← or_crash (r.decode serialized); document ← load_text r t; root_dict document)

-- load_document
unfoldable pub load_document : Reader → ℕ → Raw → Parsed Fields
unfolding load_bytes
load_document r max_size (dict document) =
    if ltb max_size (length (r.dump document)) then invalid too_large else ok document
load_document r max_size (text t) = load_bytes r max_size (r.encode t)
load_document r max_size (bytes b) = load_bytes r max_size b

abbrev pub paths_of : Option Json → Parsed Fields
paths_of (some (obj fields)) = ok fields
paths_of _ = invalid (codes "specification has no paths object")

abbrev pub first_or_empty : List Text → Text
first_or_empty [] = []
first_or_empty (url ∷ urls) = url

-- The loop over the paths.
unfoldable pub document_endpoints :
    Reader → Fields → Text → List Text → Fields → Parsed (List EndpointDefinition)
unfolding path_endpoints
document_endpoints r document version base_urls paths =
    each_field (path_endpoints r document version (rstrip b'/' (first_or_empty base_urls))) paths

unfoldable pub inventory_of :
    Reader → Fields → Text → List Text → List EndpointDefinition → Parsed ParsedInventory
inventory_of r document version base_urls endpoints =
    if is_empty endpoints
    then invalid (codes "specification contains no supported operations")
    else ok (record {
      version = version;
      base_urls = base_urls;
      endpoints = endpoints;
      document = document;
      sha256 = r.sha256 (r.dump_sorted document);
    })

-- parse_api_document
unfoldable pub parse_api_document : Reader → Raw → Text → ℕ → Parsed ParsedInventory
unfolding load_document servers document_endpoints inventory_of
parse_api_document r raw target_url max_size = do
  document ← load_document r max_size raw
  (version, base_urls) ← servers r document target_url
  paths ← paths_of (get (codes "paths") document)
  endpoints ← document_endpoints r document version base_urls paths
  inventory_of r document version base_urls endpoints
