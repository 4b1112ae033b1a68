-- ===== src/Ingestion/Sources.antt =====
-- `_inventory` of app/services/orchestrator.py: the choice between the sources of an inventory. The
-- payload is what the row `_INGESTION_PAYLOAD` of the scan holds, if there is one.
use api_scanner.Common.{
  ℕ, Bool, true, false, not, Option, none, some, List, [], ◌∷◌, is_empty, if◌then◌else◌,
}
use api_scanner.Common.Text.{Text, codes}
use api_scanner.Json.{Fields, end}
use api_scanner.Scope.{Checked, err, ok, ScopedHttpClient}
use api_scanner.Ingestion.{EndpointDefinition, ParsedInventory, Parsed, invalid, crashed}
use api_scanner.Ingestion
use api_scanner.Ingestion.Document.{Raw, parse_api_document}
use api_scanner.Ingestion.Postman.{PostmanReader, parse_postman_collection}
use api_scanner.Ingestion.Discovery.{
  Web, Call, Found, Result, raised, inventory, probed, ask, fetch_specification, discover_inventory,
}

pub record Payload : Type 0 where
  pub specification : Option Raw
  pub postman_collection : Option Fields

-- The request of the scan, as far as it says where the inventory comes from.
pub record Request : Type 0 where
  pub base_url : Text
  pub specification_url : Text
  pub user_paths : List Text

-- What `_inventory` returns or raises, the requests that it made, and whether the row of the payload is
-- still there.
pub record Obtained : Type 0 where
  pub result : Parsed ParsedInventory
  pub calls : List Call
  pub payload_kept : Bool

unfoldable pub specification_of : Option Payload → Option Raw
specification_of none = none
specification_of (some p) = p.specification

unfoldable pub collection_of : Option Payload → Option Fields
collection_of none = none
collection_of (some p) = p.postman_collection

abbrev pub is_obtained : Parsed ParsedInventory → Bool
is_obtained (Ingestion.ok found) = true
is_obtained _ = false

abbrev pub has_payload : Option Payload → Bool
has_payload none = false
has_payload (some p) = true

-- list(endpoints.values())
abbrev pub endpoints_of : Found → List EndpointDefinition
endpoints_of [] = []
endpoints_of ((id, e) ∷ found) = e ∷ endpoints_of found

module _ (w : Web) (postman : PostmanReader) (client : ScopedHttpClient) (max_size : ℕ) where
  -- A ScopeError is an exception as it is.
  abbrev pub fetched_result : Checked (Parsed ParsedInventory) → Parsed ParsedInventory
  fetched_result (err e) = crashed
  fetched_result (ok parsed) = parsed

  -- The inventory of a discovery without a specification; the bytes are b"{}".
  abbrev pub discovered_inventory : Text → Found → ParsedInventory
  discovered_inventory base_url found = record {
    version = codes "discovery";
    base_urls = base_url ∷ [];
    endpoints = endpoints_of found;
    document = end;
    sha256 = w.reader.sha256 (codes "{}");
  }

  abbrev pub discovered_result : Text → Result → Parsed ParsedInventory
  discovered_result base_url raised = crashed
  discovered_result base_url (inventory found) = Ingestion.ok found
  discovered_result base_url (probed found) = Ingestion.ok (discovered_inventory base_url found)

  -- The row is deleted once there is an inventory.
  abbrev pub settled : Option Payload → Parsed ParsedInventory → List Call → Obtained
  settled payload result calls = record {
    result = result;
    calls = calls;
    payload_kept = if is_obtained result then false else has_payload payload;
  }

  -- The last two branches: the URL of a specification, or the discovery.
  unfoldable pub search_network : Option Payload → Request → Obtained
  unfolding fetch_specification discover_inventory ask
  search_network payload request =
      if not (is_empty request.specification_url)
      then settled payload
          (fetched_result (
            fetch_specification w client request.specification_url max_size
              (some request.base_url)))
          (ask w client 0 (codes "application/json, application/yaml") request.specification_url
            ∷ [])
      else (let d = discover_inventory w client request.base_url max_size request.user_paths in
          settled payload (discovered_result request.base_url d.result) d.calls)

  -- _inventory
  unfoldable pub obtain : Option Payload → Request → Obtained
  unfolding search_network parse_api_document parse_postman_collection
  obtain payload request = elim (specification_of payload) [
    | some raw ↦ settled payload (parse_api_document w.reader raw request.base_url max_size) []
    | none ↦ elim (collection_of payload) [
      | some document ↦
          settled payload (parse_postman_collection postman document request.base_url max_size) []
      | none ↦ search_network payload request
    ]
  ]
