-- ===== src/Ingestion/Endpoints.antt =====
-- One endpoint for each operation that the paths of a document declare.
use api_scanner.Common.{
  true, ◌&&◌, ◌≡◌, refl, sym, ap, ◌∙◌, inl, inr, List, [], ◌∷◌, ◌++◌, map, Bool-cases, and_parts,
  if◌then◌else◌, All,
}
use mathlib.Core.Path.{subst}
use api_scanner.Common.Text.{Text, codes, starts_with, upper, upper-upper, lower-upper}
use api_scanner.Json.{Json, null, Fields, arr, nil}
use api_scanner.Domain.{build_id}
use api_scanner.Custom.Schema.{is_dict, fields_of, empty_dict}
use api_scanner.Ingestion.{
  Reader, EndpointDefinition, ok, or_crash, iterate, >>=-ok_inv, each_field-map, each_field-All,
  flat_fields,
}
use api_scanner.Ingestion.References.{resolve}
use api_scanner.Ingestion.Operations.{
  is_http_method, value_or, request_body, make_endpoint, content_types, operation_id, responses_of,
  parameters, endpoint_of, method_endpoints, path_endpoints,
}
use api_scanner.Ingestion.Distinct.{AreDistinct, parameters-distinct}

module _ (r : Reader) (document : Fields) where
  -- The operations that the paths of a document declare, with their methods in upper case.
  abbrev pub documented_methods : Text → Text → Json → List (Text × Text)
  documented_methods path method raw =
      if is_http_method method && is_dict (resolve r document raw)
      then (path, upper method) ∷ []
      else []

  abbrev pub documented_paths : Text → Json → List (Text × Text)
  documented_paths path raw =
      if is_dict (resolve r document raw) && starts_with (codes "/") path
      then flat_fields (documented_methods path) (fields_of (resolve r document raw))
      else []

  abbrev pub documented : Fields → List (Text × Text)
  documented paths = flat_fields documented_paths paths

  abbrev pub operation_of : EndpointDefinition → Text × Text
  operation_of e = (e.path, e.method)

  -- An endpoint below a base URL.
  pub record IsEndpoint (version base_url : Text) (e : EndpointDefinition) : Type 0 where
    pub id : e.endpoint_id ≡ build_id r.digest e.base_url e.path e.method
    pub base : e.base_url ≡ base_url
    pub rooted : starts_with (codes "/") e.path ≡ true
    pub known : is_http_method e.method ≡ true
    pub source : e.source ≡ codes "OPENAPI_" ++ version
    pub distinct : AreDistinct r document e.parameters

  module _ (version base_url : Text) where
    build_id-upper :
        (path method : Text)
        → build_id r.digest base_url path method ≡ build_id r.digest base_url path (upper method)
    unfolding build_id
    build_id-upper path method = rw upper-upper refl

    -- What the constructor call of an endpoint sets.
    record IsMade (path method : Text) (e : EndpointDefinition) : Type 0 where
      path_eq : e.path ≡ path
      method_eq : e.method ≡ upper method
      id_eq : e.endpoint_id ≡ build_id r.digest base_url path method
      base_eq : e.base_url ≡ base_url
      source_eq : e.source ≡ codes "OPENAPI_" ++ version
      distinct : AreDistinct r document e.parameters

    endpoint_of-IsMade :
        (path_item : Fields) (path method : Text) (operation : Fields) (e : EndpointDefinition)
        → endpoint_of r document version base_url path_item path method operation ≡ ok e
        → IsMade path method e
    unfolding endpoint_of
    endpoint_of-IsMade path_item path method operation e h =
        let (body, _, h1) = >>=-ok_inv (request_body r document operation) _ h in
        let (types, _, h2) = >>=-ok_inv (content_types r document version body) _ h1 in
        let (id, _, h3) =
          >>=-ok_inv (operation_id r document (value_or (codes "operationId") operation null)) _
            h2 in
        let (tags, _, h4) =
          >>=-ok_inv (or_crash (iterate (value_or (codes "tags") operation (arr nil)))) _ h3 in
        let (ps, found, h5) = >>=-ok_inv (parameters r document path_item operation) _ h4 in
        let (responses, _, h6) =
          >>=-ok_inv (responses_of r document (value_or (codes "responses") operation empty_dict)) _
            h5 in
        let same : make_endpoint r document version base_url path method operation body types id
              tags ps responses
            ≡ e =
          cc in
        record {
          path_eq = ap (λ x. x.path) (sym same);
          method_eq = ap (λ x. x.method) (sym same);
          id_eq = ap (λ x. x.endpoint_id) (sym same);
          base_eq = ap (λ x. x.base_url) (sym same);
          source_eq = ap (λ x. x.source) (sym same);
          distinct =
              subst (AreDistinct r document) (ap (λ x. x.parameters) same)
                (parameters-distinct r document path_item operation ps found);
        }

    made-IsEndpoint :
        (path method : Text) (e : EndpointDefinition)
        → starts_with (codes "/") path ≡ true
        → is_http_method method ≡ true
        → IsMade path method e
        → IsEndpoint version base_url e
    made-IsEndpoint path method e rooted known m = record {
      id =
          m.id_eq
          ∙ (build_id-upper path method ∙ rw m.base_eq (rw m.path_eq (rw m.method_eq refl)));
      base = m.base_eq;
      rooted = rw m.path_eq rooted;
      known = rw m.method_eq (rw lower-upper known);
      source = m.source_eq;
      distinct = m.distinct;
    }

    module _ (path_item : Fields) (path : Text) (rooted : starts_with (codes "/") path ≡ true) where
      method_endpoints-operations :
          (method : Text) (raw : Json) (es : List EndpointDefinition)
          → method_endpoints r document version base_url path_item path method raw ≡ ok es
          → map operation_of es ≡ documented_methods path method raw
      unfolding method_endpoints
      method_endpoints-operations method raw es h =
          elim (Bool-cases (is_http_method method && is_dict (resolve r document raw))) [
            | inl t ↦
                let (e, found, rest) =
                  >>=-ok_inv
                    (endpoint_of r document version base_url path_item path method
                      (fields_of (resolve r document raw)))
                    _ (rw t at h) in
                let m = endpoint_of-IsMade path_item path method _ e found in
                let same : e ∷ [] ≡ es = cc in
                rw t (rw (← same) (rw m.path_eq (rw m.method_eq refl)))
            | inr t ↦ let same : [] ≡ es = cc (rw t at h) in rw t (rw (← same) refl)
          ]

      method_endpoints-All :
          (method : Text) (raw : Json) (es : List EndpointDefinition)
          → method_endpoints r document version base_url path_item path method raw ≡ ok es
          → All (IsEndpoint version base_url) es
      unfolding method_endpoints
      method_endpoints-All method raw es h =
          elim (Bool-cases (is_http_method method && is_dict (resolve r document raw))) [
            | inl t ↦
                let (e, found, rest) =
                  >>=-ok_inv
                    (endpoint_of r document version base_url path_item path method
                      (fields_of (resolve r document raw)))
                    _ (rw t at h) in
                let m = endpoint_of-IsMade path_item path method _ e found in
                let same : e ∷ [] ≡ es = cc in
                rw (← same) (made-IsEndpoint path method e rooted (and_parts _ _ t).0 m, tt)
            | inr t ↦ let same : [] ≡ es = cc (rw t at h) in rw (← same) tt
          ]

    pub path_endpoints-operations :
        (path : Text) (raw : Json) (es : List EndpointDefinition)
        → path_endpoints r document version base_url path raw ≡ ok es
        → map operation_of es ≡ documented_paths path raw
    unfolding path_endpoints
    path_endpoints-operations path raw es h =
        elim (Bool-cases (is_dict (resolve r document raw) && starts_with (codes "/") path)) [
          | inl t ↦ rw t (
              each_field-map
                (method_endpoints r document version base_url (fields_of (resolve r document raw))
                  path)
                operation_of (documented_methods path)
                (method_endpoints-operations (fields_of (resolve r document raw)) path
                  (and_parts _ _ t).1)
                (fields_of (resolve r document raw)) es (rw t at h))
          | inr t ↦ let same : [] ≡ es = cc (rw t at h) in rw t (rw (← same) refl)
        ]

    pub path_endpoints-All :
        (path : Text) (raw : Json) (es : List EndpointDefinition)
        → path_endpoints r document version base_url path raw ≡ ok es
        → All (IsEndpoint version base_url) es
    unfolding path_endpoints
    path_endpoints-All path raw es h =
        elim (Bool-cases (is_dict (resolve r document raw) && starts_with (codes "/") path)) [
          | inl t ↦
              each_field-All
                (method_endpoints r document version base_url (fields_of (resolve r document raw))
                  path)
                (IsEndpoint version base_url)
                (method_endpoints-All (fields_of (resolve r document raw)) path (and_parts _ _ t).1)
                (fields_of (resolve r document raw)) es (rw t at h)
          | inr t ↦ let same : [] ≡ es = cc (rw t at h) in rw (← same) tt
        ]
