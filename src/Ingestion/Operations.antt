-- ===== src/Ingestion/Operations.antt =====
-- `_security_required`, `_parameters`, `_request_body` and the loops over the paths and methods in
-- `parse_api_document` of app/ingestion/openapi.py.
use api_scanner.Common.{
  Bool, not, ◌&&◌, ◌||◌, Option, none, some, List, [], ◌∷◌, ◌++◌, map, if◌then◌else◌,
}
use api_scanner.Common.Text.{Text, codes, text_eq, starts_with, lower, upper}
use api_scanner.Common.Sorting.{is_in}
use api_scanner.Json.{Json, null, bool, str, arr, obj, nil, Fields, end, field, get}
use api_scanner.Domain.{build_id, high}
use api_scanner.Custom.Schema.{
  json_or, is_truthy, is_dict, is_text, fields_of, dict_or_empty, empty_dict,
}
use api_scanner.Ingestion.{
  Reader, ParameterDefinition, EndpointDefinition, Parsed, ok, crashed, ◌>>=◌, or_crash, iterate,
  keys_of, each_field,
}
use api_scanner.Ingestion.References.{resolve, resolve_deep}

-- HTTP_METHODS
abbrev pub http_methods : List Text
http_methods =
    codes "get"
    ∷ codes "put"
    ∷ codes "post"
    ∷ codes "delete"
    ∷ codes "options"
    ∷ codes "head"
    ∷ codes "patch"
    ∷ codes "trace"
    ∷ []

abbrev pub is_http_method : Text → Bool
is_http_method method = is_in (lower method) http_methods

-- The locations of a parameter that the scanner knows.
abbrev pub locations : List Text
locations = codes "path" ∷ codes "query" ∷ codes "header" ∷ codes "cookie" ∷ []

-- item.get(key, default)
abbrev pub value_or : Text → Fields → Json → Json
value_or key fields default = json_or (get key fields) default

-- bool(operation.get("security", document.get("security", [])))
unfoldable pub security_required : Fields → Fields → Bool
security_required document operation =
    is_truthy
      (value_or (codes "security") operation (value_or (codes "security") document (arr nil)))

module _ (r : Reader) (document : Fields) where
  -- A parameter from its dict, if that has a name and a known location.
  unfoldable pub define_parameter : Fields → Option ParameterDefinition
  define_parameter item =
      let name = value_or (codes "name") item null in
      let place = value_or (codes "in") item null in
      let schema = resolve r document (value_or (codes "schema") item empty_dict) in
      let location = r.str_of place in
      if not (is_truthy name) || not (is_truthy place) || not (is_in location locations)
      then none
      else some (record {
        name = r.str_of name;
        location = location;
        required =
            is_truthy (value_or (codes "required") item (bool (text_eq location (codes "path"))));
        schema = dict_or_empty schema;
        example =
            value_or (codes "example") item (value_or (codes "example") (fields_of schema) null);
      })

  abbrev pub define_dict : Json → Option ParameterDefinition
  define_dict (obj item) = define_parameter item
  define_dict _ = none

  unfoldable pub parameter_of : Json → Option ParameterDefinition
  unfolding define_parameter
  parameter_of raw = define_dict (resolve r document raw)

  abbrev pub same_key : ParameterDefinition → ParameterDefinition → Bool
  same_key p q = text_eq p.name q.name && text_eq p.location q.location

  -- by_key[(name, location)] = parameter
  unfoldable pub put_parameter :
      ParameterDefinition → List ParameterDefinition → List ParameterDefinition
  put_parameter p [] = p ∷ []
  put_parameter p (q ∷ qs) = if same_key q p then p ∷ qs else q ∷ put_parameter p qs

  abbrev put_defined :
      Option ParameterDefinition → List ParameterDefinition → List ParameterDefinition
  put_defined none ps = ps
  put_defined (some p) ps = put_parameter p ps

  -- The loop over the raw parameters.
  unfoldable pub define_parameters : List ParameterDefinition → List Json → List ParameterDefinition
  unfolding parameter_of put_parameter
  define_parameters by_key [] = by_key
  define_parameters by_key (raw ∷ values) =
      define_parameters (put_defined (parameter_of raw) by_key) values

  abbrev pub raw_parameters : Fields → Option (List Json)
  raw_parameters fields = iterate (value_or (codes "parameters") fields (arr nil))

  -- _parameters
  unfoldable pub parameters : Fields → Fields → Parsed (List ParameterDefinition)
  unfolding define_parameters
  parameters path_item operation = do
    shared ← or_crash (raw_parameters path_item)
    own ← or_crash (raw_parameters operation)
    ok (define_parameters [] (shared ++ own))

  abbrev body_content : Fields → Json
  body_content item = obj (
      field (codes "required") (bool (is_truthy (value_or (codes "required") item null))) (
        field (codes "content")
          (obj (
            field (codes "application/json")
              (obj (
                field (codes "schema")
                  (resolve_deep document [] 31 (value_or (codes "schema") item empty_dict)) end))
              end))
          end))

  -- The first parameter that is the body, of Swagger 2.0.
  unfoldable pub body_parameter : List Json → Option Json
  body_parameter [] = none
  body_parameter (raw ∷ values) =
      let rest = body_parameter values in
      let item = resolve r document raw in
      if is_dict item && is_text (codes "body") (value_or (codes "in") (fields_of item) null)
      then some (body_content (fields_of item))
      else rest

  -- _request_body
  unfoldable pub request_body : Fields → Parsed (Option Json)
  unfolding body_parameter
  request_body operation = elim (get (codes "requestBody") operation) [
    | some raw ↦
        let body = resolve r document raw in
        ok (if is_dict body then some (resolve_deep document [] 31 body) else none)
    | none ↦ (do values ← or_crash (raw_parameters operation); ok (body_parameter values))
  ]

  -- operation.get("operationId"), which is a text or None
  abbrev pub operation_id : Json → Parsed (Option Text)
  operation_id null = ok none
  operation_id (str t) = ok (some t)
  operation_id _ = crashed

  -- operation.get("responses", {}), which is a dict
  abbrev pub responses_of : Json → Parsed Fields
  responses_of (obj fields) = ok fields
  responses_of _ = crashed

  -- request_body.get("content", {}) if request_body else {}
  abbrev content_of : Option Json → Json
  content_of none = empty_dict
  content_of (some body) = value_or (codes "content") (fields_of body) empty_dict

  unfoldable pub content_types : Text → Option Json → Parsed (List Text)
  content_types version body =
      let consumes = value_or (codes "consumes") document null in
      if text_eq version (codes "2.0") && is_truthy consumes
      then (do listed ← or_crash (iterate consumes); ok (map r.str_of listed))
      else ok (keys_of (fields_of (content_of body)))

  -- The constructor call of an endpoint.
  abbrev pub make_endpoint :
      Text
      → Text
      → Text
      → Text
      → Fields
      → Option Json
      → List Text
      → Option Text
      → List Json
      → List ParameterDefinition
      → Fields
      → EndpointDefinition
  make_endpoint version base_url path method operation body types id tags ps responses = record {
    endpoint_id = build_id r.digest base_url path method;
    base_url = base_url;
    path = path;
    method = upper method;
    operation_id = id;
    tags = map r.str_of tags;
    parameters = ps;
    request_body = body;
    responses = responses;
    content_types = types;
    auth_required = security_required document operation;
    source = codes "OPENAPI_" ++ version;
    confidence = high;
  }

  -- The endpoint of an operation.
  unfoldable pub endpoint_of :
      Text → Text → Fields → Text → Text → Fields → Parsed EndpointDefinition
  unfolding request_body content_types parameters security_required
  endpoint_of version base_url path_item path method operation = do
    body ← request_body operation
    types ← content_types version body
    id ← operation_id (value_or (codes "operationId") operation null)
    tags ← or_crash (iterate (value_or (codes "tags") operation (arr nil)))
    ps ← parameters path_item operation
    responses ← responses_of (value_or (codes "responses") operation empty_dict)
    ok (make_endpoint version base_url path method operation body types id tags ps responses)

  -- The turn of the inner loop: one entry of a path item.
  unfoldable pub method_endpoints :
      Text → Text → Fields → Text → Text → Json → Parsed (List EndpointDefinition)
  unfolding endpoint_of
  method_endpoints version base_url path_item path method raw =
      let operation = resolve r document raw in
      if is_http_method method && is_dict operation
      then (do
        e ← endpoint_of version base_url path_item path method (fields_of operation)
        ok (e ∷ []))
      else ok []

  -- The turn of the outer loop: one path.
  unfoldable pub path_endpoints : Text → Text → Text → Json → Parsed (List EndpointDefinition)
  unfolding method_endpoints
  path_endpoints version base_url path raw =
      let path_item = fields_of (resolve r document raw) in
      if is_dict (resolve r document raw) && starts_with (codes "/") path
      then each_field (method_endpoints version base_url path_item path) path_item
      else ok []
