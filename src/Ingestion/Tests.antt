-- ===== src/Ingestion/Tests.antt =====
-- An API document with a reference to itself, and a network that serves it at one path.
use api_scanner.Common.{
  ℕ, ◌+◌, true, false, ◌≡◌, refl, arith, Option, none, some, List, [], ◌∷◌, ◌++◌, All, length,
  if◌then◌else◌,
}
use api_scanner.Common.Text.{Text, codes, text_eq}
use api_scanner.Json.{
  Json, null, bool, number, str, arr, obj, nil, cons, Fields, end, field, get, dicts_in,
}
use api_scanner.Domain.{high}
use api_scanner.Scope.{Net, SplitUrl, absent, https, ScopedHttpClient, scope_guard}
use api_scanner.Ingestion.{Reader, ParsedInventory, Parsed, ok, invalid, crashed}
use api_scanner.Ingestion.References.{resolve_deep}
use api_scanner.Ingestion.Document.{bytes, parse_api_document}
use api_scanner.Ingestion.Discovery.{Web, discover_inventory, base_of}
use api_scanner.Ingestion.Resolved.{IsResolved, resolve_deep-AllResolved}
use api_scanner.Ingestion.Inventory.{IsInventory, parse_api_document-IsInventory}
use api_scanner.Ingestion.Postman.{PostmanReader, parse_postman_collection}
use api_scanner.Ingestion.Sources.{Payload, Request}
use api_scanner.Ingestion.Discovered.{IsDiscovery, discover_inventory-IsDiscovery}

abbrev reference : Text → Fields → Fields
reference target = field (codes "$ref") (str target)

-- A tree of nodes, whose children are nodes.
abbrev node : Json
node = obj (
    field (codes "type") (str (codes "object"))
      (field (codes "child") (obj (reference (codes "#/definitions/node") end)) end))

abbrev operation : Json
operation = obj (
    field (codes "parameters")
      (arr (
        cons
          (obj
            (field (codes "name") (str (codes "id")) (field (codes "in") (str (codes "path")) end)))
          nil))
      (field (codes "requestBody") (obj (reference (codes "#/definitions/node") end)) end))

abbrev document : Fields
document = field (codes "openapi") (str (codes "3.0.0")) (
    field (codes "paths")
      (obj (
        field (codes "/n/{id}") (obj (field (codes "Post") operation end))
          (field (codes "x-note") (obj (field (codes "get") operation end)) end)))
      (field (codes "definitions") (obj (field (codes "node") node end)) end))

abbrev reader : Reader
reader = record {
  encode = λ t. t;
  decode = λ bytes. some bytes;
  load_json = λ t. if text_eq t (codes "doc") then some (obj document) else none;
  load_yaml = λ _. none;
  dump = λ _. [];
  dump_sorted = λ _. [];
  sha256 = λ _. [];
  digest = λ t. t;
  urljoin = λ base path. base ++ path;
  str_of = λ v. elim v [
    | str t ↦ t
    | null ↦ codes "None"
    | bool b ↦ codes "b"
    | number n ↦ n
    | arr items ↦ codes "[]"
    | obj fields ↦ codes "{}"
  ];
}

abbrev split : Text → Option SplitUrl
split url = some (record {
  scheme = https;
  username = none;
  password = none;
  hostname = some (codes "a.x");
  port = absent;
  netloc = codes "a.x";
  path = url;
  query = [];
})

abbrev net : Net
net = record {
  urlsplit = split;
  urlunsplit = λ scheme netloc path query. path;
  urljoin = λ base location. location;
  idna = λ name. some name;
  is_ip = λ _. false;
  is_global = λ _. true;
  decode = λ headers body. some body;
  getaddrinfo = λ _ host port. some (codes "1.1.1.1" ∷ []);
  send = λ n url. some (record {
    status = if text_eq url (codes "https://a.x/openapi.yml") then 200 else 404;
    location = none;
    headers = [];
    chunks = codes "doc" ∷ [];
  });
}

abbrev web : Web
web = record {
  net = λ _ _. net;
  reader = reader;
  split_url = split;
  read_body = λ _. invalid [];
  describe = λ _. [];
  digits = λ n. n ∷ [];
}

abbrev client : ScopedHttpClient
client = record {
  guard = scope_guard (codes "a.x" ∷ []) false;
  max_response_size = 10;
  max_redirects = 3;
}

-- A node whose child is `child`.
abbrev node_of : Json → Json
node_of child = obj (field (codes "type") (str (codes "object")) (field (codes "child") child end))

abbrev inventory : ParsedInventory
inventory = record {
  version = codes "3.0.0";
  base_urls = codes "https://a.x" ∷ [];
  endpoints =
      record {
        endpoint_id = codes "https://a.x|/n/{id}|POST";
        base_url = codes "https://a.x";
        path = codes "/n/{id}";
        method = codes "POST";
        operation_id = none;
        tags = [];
        parameters =
            record {
              name = codes "id";
              location = codes "path";
              required = true;
              schema = obj end;
              example = null;
            }
            ∷ [];
        request_body = some (node_of (node_of (obj end)));
        responses = end;
        content_types = [];
        auth_required = false;
        source = codes "OPENAPI_3.0.0";
        confidence = high;
      }
      ∷ [];
  document = document;
  sha256 = [];
}

parsed : parse_api_document reader (bytes (codes "doc")) (codes "https://a.x") 10 ≡ ok inventory
unfolding parse_api_document get text_eq api_scanner.Common.Text.starts_with
    api_scanner.Ingestion.References.resolve api_scanner.Common.Text.lower
    api_scanner.Domain.build_id api_scanner.Common.Text.rstrip api_scanner.Common.Text.upper
    resolve_deep api_scanner.Common.Text.join
parsed = refl

parse_api_document-IsInventory_example :
    IsInventory reader (bytes (codes "doc")) (codes "https://a.x") 10 inventory
parse_api_document-IsInventory_example =
    parse_api_document-IsInventory reader (bytes (codes "doc")) (codes "https://a.x") 10 inventory
      parsed

resolve_deep-AllResolved_example : All IsResolved (dicts_in (resolve_deep document [] 31 node))
resolve_deep-AllResolved_example = resolve_deep-AllResolved document [] 31 node

discover_inventory-IsDiscovery_example :
    IsDiscovery web client
      (codes "https://a.x/v1")
      (base_of web client (record {
        scheme = https;
        username = none;
        password = none;
        hostname = some (codes "a.x");
        port = absent;
        netloc = codes "a.x";
        path = codes "https://a.x/v1";
        query = [];
      }))
      10
      (8 + length (codes "x" ∷ []))
      (discover_inventory web client (codes "https://a.x/v1") 10 (codes "x" ∷ []))
discover_inventory-IsDiscovery_example =
    discover_inventory-IsDiscovery web client (codes "https://a.x/v1") 10 (codes "x" ∷ []) _ refl

-- A folder with one request.
abbrev collection : Fields
collection =
    field (codes "info")
      (obj (field (codes "schema") (str (codes "https://schema.getpostman.com")) end))
      (field (codes "item")
        (arr (
          cons
            (obj (
              field (codes "name") (str (codes "f")) (
                field (codes "item")
                  (arr (cons (obj (field (codes "request") (str (codes "/u")) end)) nil)) end)))
            nil))
        end)

abbrev postman : PostmanReader
postman = record {
  reader = reader;
  split_url = split;
  substitute = λ value_of t. t;
  dump_keys = λ _. [];
}

abbrev posted : ParsedInventory
posted = record {
  version = codes "postman-2.x";
  base_urls = codes "https://a.x" ∷ [];
  endpoints =
      record {
        endpoint_id = codes "https://a.x|/u|GET";
        base_url = codes "https://a.x";
        path = codes "/u";
        method = codes "GET";
        operation_id = none;
        tags = codes "f" ∷ [];
        parameters = [];
        request_body = none;
        responses = end;
        content_types = [];
        auth_required = false;
        source = codes "POSTMAN";
        confidence = high;
      }
      ∷ [];
  document = collection;
  sha256 = [];
}

walked : parse_postman_collection postman collection (codes "https://a.x") 10 ≡ ok posted
unfolding parse_postman_collection get text_eq api_scanner.Common.Text.starts_with
    api_scanner.Domain.build_id api_scanner.Common.Text.rstrip api_scanner.Common.Text.upper
    api_scanner.Common.Text.join api_scanner.Common.Text.occurs
walked = refl

-- The credentials hold no document, so the API is searched for one.
abbrev request : Request
request = record {
  base_url = codes "https://a.x/v1";
  specification_url = [];
  user_paths = codes "x" ∷ [];
}

abbrev payload : Payload
payload = record { specification = none; postman_collection = none }
