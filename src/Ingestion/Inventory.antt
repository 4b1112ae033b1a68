-- ===== src/Ingestion/Inventory.antt =====
-- What a parsed API document yields: its operations, one endpoint for each.
use api_scanner.Common.{
  false, ◌≡◌, inl, inr, Option, none, some, List, map, Bool-cases, All, is_empty, ℕ,
}
use api_scanner.Common.Text.{Text, codes, rstrip}
use api_scanner.Json.{Json, null, bool, number, str, obj, Fields, arr, get}
use api_scanner.Ingestion.{
  Reader, EndpointDefinition, ParsedInventory, ok, >>=-ok_inv, each_field-map, each_field-All,
}
use api_scanner.Ingestion.Servers.{servers}
use api_scanner.Ingestion.Operations.{path_endpoints}
use api_scanner.Ingestion.Document.{
  Raw, load_document, paths_of, first_or_empty, document_endpoints, inventory_of,
  parse_api_document,
}
use api_scanner.Ingestion.Endpoints.{
  operation_of, documented, documented_paths, IsEndpoint, path_endpoints-operations,
  path_endpoints-All,
}

-- An inventory of a document that was read.
pub record IsInventory (r : Reader) (raw : Raw) (target_url : Text) (max_size : ℕ)
    (found : ParsedInventory) : Type 0 where
  pub document : load_document r max_size raw ≡ ok found.document
  pub servers_eq : servers r found.document target_url ≡ ok (found.version, found.base_urls)
  pub paths : Fields
  pub paths_eq : get (codes "paths") found.document ≡ some (obj paths)
  pub some_endpoint : is_empty found.endpoints ≡ false
  pub operations :
      map (operation_of r found.document) found.endpoints ≡ documented r found.document paths
  pub built :
      All
        (IsEndpoint r found.document found.version (rstrip b'/' (first_or_empty found.base_urls)))
        found.endpoints

paths_of-ok : (v : Option Json) (paths : Fields) → paths_of v ≡ ok paths → v ≡ some (obj paths)
paths_of-ok none paths h = cc
paths_of-ok (some (obj fields)) paths h = cc
paths_of-ok (some null) paths h = cc
paths_of-ok (some (bool b)) paths h = cc
paths_of-ok (some (number n)) paths h = cc
paths_of-ok (some (str t)) paths h = cc
paths_of-ok (some (arr items)) paths h = cc

inventory_of-IsInventory :
    (r : Reader) (raw : Raw) (target_url : Text) (max_size : ℕ) (document : Fields) (version : Text)
    (base_urls : List Text) (paths : Fields) (endpoints : List EndpointDefinition)
    (found : ParsedInventory)
    → load_document r max_size raw ≡ ok document
    → servers r document target_url ≡ ok (version, base_urls)
    → paths_of (get (codes "paths") document) ≡ ok paths
    → document_endpoints r document version base_urls paths ≡ ok endpoints
    → inventory_of r document version base_urls endpoints ≡ ok found
    → IsInventory r raw target_url max_size found
unfolding document_endpoints inventory_of
inventory_of-IsInventory r raw target_url max_size document version base_urls paths endpoints found
      e1 e2 e3 e4 e5 =
    elim (Bool-cases (is_empty endpoints)) [
      | inl none_found ↦ let refused = rw none_found at e5 in cc
      | inr some_found ↦
          let same : record {
            version = version;
            base_urls = base_urls;
            endpoints = endpoints;
            document = document;
            sha256 = r.sha256 (r.dump_sorted document);
          }
              ≡ found =
            cc (rw some_found at e5) in
          rw (← same) (record {
            document = e1;
            servers_eq = e2;
            paths = paths;
            paths_eq = paths_of-ok (get (codes "paths") document) paths e3;
            some_endpoint = some_found;
            operations =
                each_field-map
                  (path_endpoints r document version (rstrip b'/' (first_or_empty base_urls)))
                  (operation_of r document) (documented_paths r document)
                  (path_endpoints-operations r document version
                    (rstrip b'/' (first_or_empty base_urls)))
                  paths endpoints e4;
            built =
                each_field-All
                  (path_endpoints r document version (rstrip b'/' (first_or_empty base_urls)))
                  (IsEndpoint r document version (rstrip b'/' (first_or_empty base_urls)))
                  (path_endpoints-All r document version (rstrip b'/' (first_or_empty base_urls)))
                  paths endpoints e4;
          })
    ]

-- For every reader, raw document, target URL and size limit under which the document is parsed to an
-- inventory: the inventory has at least one endpoint, and exactly one for each operation that the
-- paths of the document declare, in their order: an entry of a path item whose name is an HTTP method
-- in whatever case and whose value is a dict, under a path that starts with "/", both after their
-- references are resolved. Each endpoint lies below the first base URL, has the id of its base URL,
-- path and method, and no two of its parameters have one name and location.
pub parse_api_document-IsInventory :
    (r : Reader) (raw : Raw) (target_url : Text) (max_size : ℕ) (found : ParsedInventory)
    → parse_api_document r raw target_url max_size ≡ ok found
    → IsInventory r raw target_url max_size found
unfolding parse_api_document
parse_api_document-IsInventory r raw target_url max_size found h =
    let (document, e1, h1) = >>=-ok_inv (load_document r max_size raw) _ h in
    let ((version, base_urls), e2, h2) = >>=-ok_inv (servers r document target_url) _ h1 in
    let (paths, e3, h3) = >>=-ok_inv (paths_of (get (codes "paths") document)) _ h2 in
    let (endpoints, e4, h4) =
      >>=-ok_inv (document_endpoints r document version base_urls paths) _ h3 in
    inventory_of-IsInventory r raw target_url max_size document version base_urls paths endpoints
      found e1 e2 e3 e4 h4
