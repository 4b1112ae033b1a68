-- ===== src/Ingestion/Postman.antt =====
-- `parse_postman_collection` of app/ingestion/openapi.py.
use api_scanner.Common.{
  ℕ, ltb, true, false, ◌||◌, Option, none, some, List, [], ◌∷◌, ◌++◌, length, is_empty,
  if◌then◌else◌,
}
use api_scanner.Common.Text.{Text, codes, text_eq, occurs, rstrip, upper}
use api_scanner.Common.Dict.{lookup, insert}
use api_scanner.Json.{Json, null, bool, number, str, arr, obj, Items, nil, cons, Fields, end, field}
use api_scanner.Domain.{build_id, high}
use api_scanner.Scope.{SplitUrl}
use api_scanner.Custom.Schema.{is_truthy, empty_dict}
use api_scanner.Ingestion.{
  Reader, EndpointDefinition, ParsedInventory, Parsed, ok, invalid, crashed, ◌>>=◌, or_crash,
  iterate,
}
use api_scanner.Ingestion.Operations.{value_or}

-- What the parser calls beside the reader: `urlsplit`; the substitution of what a name between double
-- braces stands for; and json.dumps(document, sort_keys=True).
pub record PostmanReader : Type 0 where
  pub reader : Reader
  pub split_url : Text → Option SplitUrl
  pub substitute : (Text → Text) → Text → Text
  pub dump_keys : Fields → List ℕ

-- {name: value} of the variables of a collection
abbrev pub Variables : Type 0
Variables = List (Text × Text)

-- value.get, of a value that is a dict
abbrev pub as_dict : Json → Parsed Fields
as_dict (obj fields) = ok fields
as_dict _ = crashed

module _ (r : PostmanReader) where
  abbrev pub text_or : Text → Fields → Text → Text
  text_or key fields default = r.reader.str_of (value_or key fields (str default))

  -- The comprehension over the variables.
  unfoldable pub read_variables : Variables → List Json → Parsed Variables
  unfolding insert
  read_variables variables [] = ok variables
  read_variables variables (obj v ∷ vs) =
      read_variables
        (insert (r.reader.str_of (value_or (codes "key") v null)) (text_or (codes "value") v [])
          variables)
        vs
  read_variables variables (_ ∷ vs) = crashed

  -- variables.setdefault("baseUrl", target_url.rstrip("/"))
  abbrev pub with_base : Text → Variables → Variables
  with_base target_url variables = elim (lookup (codes "baseUrl") variables) [
    | some v ↦ variables
    | none ↦ insert (codes "baseUrl") (rstrip b'/' target_url) variables
  ]

  -- variables.get(name, "{{name}}")
  abbrev pub value_of : Variables → Text → Text
  value_of variables name = elim (lookup name variables) [
    | some v ↦ v
    | none ↦ codes "{{" ++ (name ++ codes "}}")
  ]

  -- request, or the dict of a text
  abbrev pub request_dict : Json → Parsed Fields
  request_dict (str t) =
      ok (field (codes "url") (str t) (field (codes "method") (str (codes "GET")) end))
  request_dict (obj fields) = ok fields
  request_dict _ = crashed

  abbrev pub raw_url : Json → Text
  raw_url (obj fields) = text_or (codes "raw") fields []
  raw_url v = r.reader.str_of v

  abbrev some_text : Text → Option Text
  some_text t = if is_empty t then none else some t

  abbrev pub path_or_root : SplitUrl → Text
  path_or_root parsed = if is_empty parsed.path then codes "/" else parsed.path

  module _ (document : Fields) (target_url : Text) (variables : Variables) where
    -- The constructor call of an endpoint.
    unfoldable pub request_endpoint : List Text → Fields → Fields → SplitUrl → EndpointDefinition
    request_endpoint folders item request parsed =
        let path = path_or_root parsed in
        let method = upper (text_or (codes "method") request (codes "GET")) in
        record {
          endpoint_id = build_id r.reader.digest target_url path method;
          base_url =
              if is_empty parsed.netloc
              then target_url
              else parsed.scheme ++ (codes "://" ++ parsed.netloc);
          path = path;
          method = method;
          operation_id = some_text (text_or (codes "name") item []);
          tags = folders;
          parameters = [];
          request_body = none;
          responses = end;
          content_types = [];
          auth_required =
              is_truthy (value_or (codes "auth") request null)
              || is_truthy (value_or (codes "auth") document null);
          source = codes "POSTMAN";
          confidence = high;
        }

    -- The request of an item, by its URL.
    unfoldable pub request_endpoints :
        List Text → Fields → Fields → Text → Parsed (List EndpointDefinition)
    unfolding request_endpoint
    request_endpoints folders item request url = if is_empty url then ok [] else (do
      parsed ← or_crash (r.split_url url)
      ok (request_endpoint folders item request parsed ∷ []))

    -- The turn of `walk` for an item without items of its own.
    unfoldable pub walk_request : List Text → Fields → Parsed (List EndpointDefinition)
    unfolding request_endpoints
    walk_request folders item = do
      request ← request_dict (value_or (codes "request") item empty_dict)
      request_endpoints folders item request
          (r.substitute (value_of variables) (raw_url (value_or (codes "url") request (str []))))

    abbrev pub join_results :
        Parsed (List EndpointDefinition)
        → Parsed (List EndpointDefinition)
        → Parsed (List EndpointDefinition)
    join_results first rest = first >>= λ es. (rest >>= λ more. ok (es ++ more))

    -- walk: the items are a list, or an iterable of texts, which are passed over. `walk_item` looks
    -- for the entry "item" of a dict in what is left of it.
    unfoldable mutual
      unfolding walk_request

      pub walk : List Text → Json → Parsed (List EndpointDefinition)
      walk folders (arr items) = walk_items folders items
      walk folders (obj fields) = ok []
      walk folders (str t) = ok []
      walk folders null = crashed
      walk folders (bool b) = crashed
      walk folders (number n) = crashed

      pub walk_items : List Text → Items → Parsed (List EndpointDefinition)
      walk_items folders nil = ok []
      walk_items folders (cons (obj item) items) =
          join_results (walk_item folders item item) (walk_items folders items)
      walk_items folders (cons _ items) = walk_items folders items

      pub walk_item : List Text → Fields → Fields → Parsed (List EndpointDefinition)
      walk_item folders item end = walk_request folders item
      walk_item folders item (field k v fields) = elim (text_eq k (codes "item")) [
        | true ↦ walk (folders ++ text_or (codes "name") item (codes "folder") ∷ []) v
        | false ↦ walk_item folders item fields
      ]

  abbrev pub collection_of : Fields → Text → List EndpointDefinition → Parsed ParsedInventory
  collection_of document target_url [] = invalid (codes "Postman collection contains no requests")
  collection_of document target_url (e ∷ es) = ok (record {
    version = codes "postman-2.x";
    base_urls = target_url ∷ [];
    endpoints = e ∷ es;
    document = document;
    sha256 = r.reader.sha256 (r.dump_keys document);
  })

  -- After the test on the schema.
  unfoldable pub parse_collection : Fields → Text → Parsed ParsedInventory
  unfolding walk read_variables
  parse_collection document target_url = do
    listed ← or_crash (iterate (value_or (codes "variable") document (arr nil)))
    variables ← read_variables [] listed
    endpoints ←
        walk document target_url (with_base target_url variables) []
          (value_or (codes "item") document (arr nil))
    collection_of document target_url endpoints

  -- parse_postman_collection
  unfoldable pub parse_postman_collection : Fields → Text → ℕ → Parsed ParsedInventory
  unfolding parse_collection
  parse_postman_collection document target_url max_size =
      if ltb max_size (length (r.reader.dump document))
      then invalid (codes "Postman collection exceeds MAX_SPEC_SIZE")
      else (do
        info ← as_dict (value_or (codes "info") document empty_dict)
        if occurs (codes "schema.getpostman.com") (text_or (codes "schema") info [])
            then parse_collection document target_url
            else invalid (codes "unsupported Postman collection"))
