-- ===== src/Ingestion/Obtained.antt =====
-- What an inventory rests on, whatever its source is.
use api_scanner.Common.{
  ℕ, suc, ◌+◌, ◌≤◌, true, false, ◌≡◌, Option, none, some, List, Memᴰ, is_empty, length, All,
  if◌then◌else◌,
}
use api_scanner.Common.Text.{Text}
use api_scanner.Json.{Fields}
use api_scanner.Scope
use api_scanner.Scope.{Response, ScopedHttpClient}
use api_scanner.Scope.Client.{IsScoped}
use api_scanner.Ingestion.{ParsedInventory, Parsed, invalid, crashed}
use api_scanner.Ingestion
use api_scanner.Ingestion.Document.{Raw, bytes}
use api_scanner.Ingestion.Postman.{PostmanReader}
use api_scanner.Ingestion.Discovery.{Web, Call, Found, target_or}
use api_scanner.Ingestion.Inventory.{IsInventory}
use api_scanner.Ingestion.Posted.{IsCollection}
use api_scanner.Ingestion.Found.{AreFound}
use api_scanner.Ingestion.Sources.{
  Payload, Request, Obtained, specification_of, collection_of, is_obtained, has_payload,
  discovered_inventory,
}

module _ (w : Web) (postman : PostmanReader) (client : ScopedHttpClient) (max_size : ℕ)
    (request : Request) (payload : Option Payload) where
  -- One of the calls was answered with this response, of status 200.
  pub record IsAnswer (calls : List Call) (response : Response) : Type 0 where
    pub call : Call
    pub made : Memᴰ call calls
    pub answered : call.run.result ≡ Scope.ok response
    pub status : response.status ≡ 200

  -- The payload of the request has neither a specification nor a collection.
  pub record IsUnspecified : Type 0 where
    pub no_specification : specification_of payload ≡ none
    pub no_collection : collection_of payload ≡ none

  -- What the inventory was taken from: the first that there is of a specification in the payload, a
  -- collection in the payload, the URL of a specification, and a discovery.
  pub data IsBacked (calls : List Call) (found : ParsedInventory) : Type 0 where
    documented :
        (raw : Raw)
        → specification_of payload ≡ some raw
        → IsInventory w.reader raw request.base_url max_size found
        → IsBacked calls found
    posted :
        (document : Fields)
        → specification_of payload ≡ none
        → collection_of payload ≡ some document
        → IsCollection postman request.base_url found
        → IsBacked calls found
    fetched :
        (response : Response)
        → IsUnspecified
        → is_empty request.specification_url ≡ false
        → IsAnswer calls response
        → IsInventory w.reader
            (bytes response.body)
            (target_or w client (some request.base_url) request.specification_url)
            max_size
            found
        → IsBacked calls found
    searched :
        (response : Response)
        → IsUnspecified
        → is_empty request.specification_url ≡ true
        → IsAnswer calls response
        → IsInventory w.reader (bytes response.body) request.base_url max_size found
        → IsBacked calls found
    discovered :
        (base : Text) (entries : Found)
        → IsUnspecified
        → is_empty request.specification_url ≡ true
        → AreFound w client base entries
        → found ≡ discovered_inventory w postman client max_size request.base_url entries
        → IsBacked calls found

  abbrev pub Backed : List Call → Parsed ParsedInventory → Type 0
  Backed calls (Ingestion.ok found) = IsBacked calls found
  Backed calls (invalid m) = Unit
  Backed calls crashed = Unit

  -- The guard of the client admitted each URL that the call was sent to.
  abbrev pub IsGuarded : Call → Type 0
  IsGuarded call =
      IsScoped (w.net call.moment call.accept) client true (suc client.max_redirects) call.run

  -- What is true of the choice, whatever it takes.
  pub record IsObtained (o : Obtained) : Type 0 where
    pub asked : All IsGuarded o.calls
    pub count : length o.calls ≤ 8 + length request.user_paths
    pub backed : Backed o.calls o.result
    pub kept : o.payload_kept ≡ (if is_obtained o.result then false else has_payload payload)

  module _ (unspecified : IsUnspecified) where
    -- The URL that the specification is parsed against.
    abbrev target : Text
    target = target_or w client (some request.base_url) request.specification_url
