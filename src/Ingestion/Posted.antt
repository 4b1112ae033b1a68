-- ===== src/Ingestion/Posted.antt =====
-- The endpoints of a Postman collection.
use api_scanner.Common.{
  ℕ, ltb, false, ◌≡◌, refl, sym, inl, inr, List, [], ◌∷◌, length, is_empty, All, All-append,
  Bool-cases,
}
use api_scanner.Common.Text.{Text, codes, text_eq, occurs, upper, upper-upper}
use api_scanner.Json.{Json, null, bool, number, str, arr, obj, Items, nil, cons, Fields, end, field}
use api_scanner.Domain.{build_id}
use api_scanner.Scope.{SplitUrl}
use api_scanner.Custom.Schema.{empty_dict}
use api_scanner.Ingestion.{
  EndpointDefinition, ParsedInventory, Parsed, ok, invalid, crashed, or_crash, ◌>>=◌, iterate,
  >>=-ok_inv,
}
use api_scanner.Ingestion.Operations.{value_or}
use api_scanner.Ingestion.Postman.{
  PostmanReader, Variables, request_dict, path_or_root, raw_url, value_of, with_base,
  read_variables, as_dict, text_or, request_endpoint, request_endpoints, walk_request, join_results,
  walk, walk_items, walk_item, collection_of, parse_collection, parse_postman_collection,
}

module _ (r : PostmanReader) (target_url : Text) where
  -- An endpoint of a request: its id is that of the target URL, whatever its own base URL is.
  pub record IsPosted (e : EndpointDefinition) : Type 0 where
    pub id : e.endpoint_id ≡ build_id r.reader.digest target_url e.path e.method
    pub path : is_empty e.path ≡ false
    pub method : e.method ≡ upper e.method
    pub source : e.source ≡ codes "POSTMAN"

  path_or_root-some : (parsed : SplitUrl) → is_empty (path_or_root r parsed) ≡ false
  path_or_root-some parsed = elim (Bool-cases (is_empty parsed.path)) [
    | inl e ↦ rw e refl
    | inr e ↦ rw e e
  ]

  module _ (document : Fields) (variables : Variables) where
    request_endpoint-IsPosted :
        (folders : List Text) (item request : Fields) (parsed : SplitUrl)
        → IsPosted (request_endpoint r document target_url variables folders item request parsed)
    unfolding request_endpoint
    request_endpoint-IsPosted folders item request parsed = record {
      id = refl;
      path = path_or_root-some parsed;
      method = sym (upper-upper _);
      source = refl;
    }

    abbrev AllPosted : Parsed (List EndpointDefinition) → Type 0
    AllPosted (ok es) = All IsPosted es
    AllPosted (invalid m) = Unit
    AllPosted crashed = Unit

    join_results-AllPosted :
        (first rest : Parsed (List EndpointDefinition))
        → AllPosted first
        → AllPosted rest
        → AllPosted (join_results r document target_url variables first rest)
    join_results-AllPosted (ok es) (ok more) h k = All-append IsPosted es more h k
    join_results-AllPosted (ok es) (invalid m) h k = tt
    join_results-AllPosted (ok es) crashed h k = tt
    join_results-AllPosted (invalid m) rest h k = tt
    join_results-AllPosted crashed rest h k = tt

    >>=-AllPosted :
        {A : Type 0} (m : Parsed A) (f : A → Parsed (List EndpointDefinition))
        → ((a : A) → AllPosted (f a))
        → AllPosted (m >>= f)
    >>=-AllPosted (ok a) f h = h a
    >>=-AllPosted (invalid m) f h = tt
    >>=-AllPosted crashed f h = tt

    request_endpoints-AllPosted :
        (folders : List Text) (item request : Fields) (url : Text)
        → AllPosted (request_endpoints r document target_url variables folders item request url)
    unfolding request_endpoints
    request_endpoints-AllPosted folders item request url = elim (Bool-cases (is_empty url)) [
      | inl e ↦ rw e tt
      | inr e ↦ rw e (
          >>=-AllPosted (or_crash (r.split_url url)) _
            (λ parsed. (request_endpoint-IsPosted folders item request parsed, tt)))
    ]

    walk_request-AllPosted :
        (folders : List Text) (item : Fields)
        → AllPosted (walk_request r document target_url variables folders item)
    unfolding walk_request
    walk_request-AllPosted folders item =
        >>=-AllPosted (request_dict r (value_or (codes "request") item empty_dict)) _ (λ request.
          request_endpoints-AllPosted folders item request (
            r.substitute (value_of r variables)
              (raw_url r (value_or (codes "url") request (str [])))))

    mutual
      unfolding walk

      walk-AllPosted :
          (folders : List Text) (v : Json)
          → AllPosted (walk r document target_url variables folders v)
      walk-AllPosted folders (arr items) = walk_items-AllPosted folders items
      walk-AllPosted folders (obj fields) = tt
      walk-AllPosted folders (str t) = tt
      walk-AllPosted folders null = tt
      walk-AllPosted folders (bool b) = tt
      walk-AllPosted folders (number n) = tt

      walk_items-AllPosted :
          (folders : List Text) (items : Items)
          → AllPosted (walk_items r document target_url variables folders items)
      walk_items-AllPosted folders nil = tt
      walk_items-AllPosted folders (cons (obj item) items) =
          join_results-AllPosted _ _ (walk_item-AllPosted folders item item)
            (walk_items-AllPosted folders items)
      walk_items-AllPosted folders (cons (arr inner) items) = walk_items-AllPosted folders items
      walk_items-AllPosted folders (cons (str t) items) = walk_items-AllPosted folders items
      walk_items-AllPosted folders (cons null items) = walk_items-AllPosted folders items
      walk_items-AllPosted folders (cons (bool b) items) = walk_items-AllPosted folders items
      walk_items-AllPosted folders (cons (number n) items) = walk_items-AllPosted folders items

      walk_item-AllPosted :
          (folders : List Text) (item fields : Fields)
          → AllPosted (walk_item r document target_url variables folders item fields)
      walk_item-AllPosted folders item end = walk_request-AllPosted folders item
      walk_item-AllPosted folders item (field k v fields) =
          elim (Bool-cases (text_eq k (codes "item"))) [
            | inl e ↦ rw (AllPosted, e) (walk-AllPosted _ v)
            | inr e ↦ rw (AllPosted, e) (walk_item-AllPosted folders item fields)
          ]

  -- A collection that was read.
  pub record IsCollection (found : ParsedInventory) : Type 0 where
    pub some_endpoint : is_empty found.endpoints ≡ false
    pub posted : All IsPosted found.endpoints

  collection_of-IsCollection :
      (document : Fields) (es : List EndpointDefinition) (found : ParsedInventory)
      → All IsPosted es
      → collection_of r document target_url es ≡ ok found
      → IsCollection found
  collection_of-IsCollection document [] found h e = cc
  collection_of-IsCollection document (x ∷ es) found h e =
      let same : record {
        version = codes "postman-2.x";
        base_urls = target_url ∷ [];
        endpoints = x ∷ es;
        document = document;
        sha256 = r.reader.sha256 (r.dump_keys document);
      }
          ≡ found =
        cc in
      rw (← same) (record { some_endpoint = refl; posted = h })

  parse_collection-IsCollection :
      (document : Fields) (found : ParsedInventory)
      → parse_collection r document target_url ≡ ok found
      → IsCollection found
  unfolding parse_collection
  parse_collection-IsCollection document found h =
      let (listed, _, h1) =
        >>=-ok_inv (or_crash (iterate (value_or (codes "variable") document (arr nil)))) _ h in
      let (variables, _, h2) = >>=-ok_inv (read_variables r [] listed) _ h1 in
      let items = value_or (codes "item") document (arr nil) in
      let full = with_base r target_url variables in
      let (es, walked, h3) = >>=-ok_inv (walk r document target_url full [] items) _ h2 in
      let posted = walk-AllPosted document full [] items in
      collection_of-IsCollection document es found (rw walked at posted) h3

-- For every reader, collection, target URL and size limit under which the collection is parsed: the
-- inventory has an endpoint, and each of its endpoints has a path that is not empty, a method in upper
-- case and the id of the target URL, its path and its method, whatever base URL its request has.
pub parse_postman_collection-IsCollection :
    (r : PostmanReader) (document : Fields) (target_url : Text) (max_size : ℕ)
    (found : ParsedInventory)
    → parse_postman_collection r document target_url max_size ≡ ok found
    → IsCollection r target_url found
unfolding parse_postman_collection
parse_postman_collection-IsCollection r document target_url max_size found h =
    elim (Bool-cases (ltb max_size (length (r.reader.dump document)))) [
      | inl e ↦ cc (rw e at h)
      | inr e ↦
          let (info, _, h1) =
            >>=-ok_inv (as_dict (value_or (codes "info") document empty_dict)) _ (rw e at h) in
          elim (Bool-cases
            (occurs (codes "schema.getpostman.com") (text_or r (codes "schema") info []))) [
              | inl f ↦ parse_collection-IsCollection r target_url document found (rw f at h1)
              | inr f ↦ cc (rw f at h1)
            ]
    ]
