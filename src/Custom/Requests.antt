-- ===== src/Custom/Requests.antt =====
-- `build_prepared_request` of app/security_tests/input_validation.py, and `endpoint_url` of
-- app/engines/custom.py.
use api_scanner.Common.{
  Bool, not, ◌||◌, ◌&&◌, Option, none, some, List, [], ◌∷◌, ◌++◌, if◌then◌else◌, is_empty, inl, inr,
  true, false,
}
use api_scanner.Common.Text.{Text, codes, text_eq, rstrip, lstrip, ends_with, replace}
use api_scanner.Json.{Json, null, number, str, obj, end, field}
use api_scanner.Custom.{
  Parameter, Endpoint, MutationPoint, PreparedRequest, Fallible, and_then, Web,
}
use api_scanner.Custom.Session.{put}
use api_scanner.Custom.Schema.{
  is_null, is_dict, is_text, json_or, entry, BodyDefinition, body_definition,
}
use api_scanner.Custom.Points.{
  body_location, path_location, query_location, wire_safe_header_value, has_body, eligible_points,
  by_key, override_or, replace_body_value,
}

-- str(value)
abbrev pub text_of : Web → Json → Text
text_of w (str t) = t
text_of w v = w.str_of v

-- The path, the query, the headers and the cookies so far.
pub record Filled : Type 0 where
  pub path : Text
  pub params : List (Text × Text)
  pub headers : List (Text × Text)
  pub cookies : List (Text × Text)

abbrev braced : Text → Text
braced name = codes "{" ++ (name ++ codes "}")

module _ (w : Web) where
  -- The body of the loop over the points.
  unfoldable pub fill_point : Option (Text × Json) → MutationPoint → Filled → Filled
  fill_point override p f =
      let value = text_of w (override_or override p.key p.baseline) in
      if text_eq p.location body_location
      then f
      else if text_eq p.location path_location
      then record f { path = replace (braced p.name) (w.quote value) f.path }
      else if text_eq p.location query_location
      then record f { params = f.params ++ (p.name, value) ∷ [] }
      else if text_eq p.location (codes "header")
      then record f { headers = put p.name (wire_safe_header_value value) f.headers }
      else if text_eq p.location (codes "cookie")
      then record f { cookies = put p.name value f.cookies }
      else f

  unfoldable pub fill_points : Option (Text × Json) → List MutationPoint → Filled → Filled
  unfolding fill_point
  fill_points override [] f = f
  fill_points override (p ∷ ps) f = fill_points override ps (fill_point override p f)

  -- points.get(key)
  abbrev point_at : Text → List MutationPoint → Option MutationPoint
  point_at k [] = none
  point_at k (p ∷ ps) = if text_eq p.key k then some p else point_at k ps

  -- The loop over the overrides of a body.
  unfoldable pub override_body : Option (Text × Json) → List MutationPoint → Json → Json
  unfolding replace_body_value
  override_body none points body = body
  override_body (some (k, v)) points body = elim (point_at k points) [
    | none ↦ body
    | some p ↦
        if text_eq p.location body_location then replace_body_value p.body_path v body else body
  ]

  abbrev is_json : Text → Bool
  is_json media_type =
      text_eq media_type (codes "application/json") || ends_with (codes "+json") media_type

  abbrev is_form : Text → Bool
  is_form media_type =
      text_eq media_type (codes "application/x-www-form-urlencoded")
      || text_eq media_type (codes "multipart/form-data")

  abbrev value_dict : Json → Json
  value_dict body = obj (field (codes "value") body end)

  abbrev some_body : Json → Option Json
  some_body body = if is_null body then none else some body

  -- prepared.json_body and prepared.data_body
  unfoldable pub json_body_of : Text → Json → Option Json
  json_body_of media_type body =
      if not (is_empty media_type) && is_json media_type then some_body body else none

  unfoldable pub data_body_of : Text → Json → Option Json
  data_body_of media_type body =
      if is_empty media_type || is_json media_type
      then none
      else if is_form media_type
      then some (if is_dict body then body else value_dict body)
      else if is_null body
      then none
      else some (value_dict body)

  abbrev full_url : Text → Text → Text
  full_url base_url path = w.url_join (rstrip b'/' base_url ++ codes "/") (lstrip b'/' path)

  abbrev overridden : Option (Text × Json) → List MutationPoint → BodyDefinition → Json
  overridden override points d =
      if has_body w d then override_body override points d.body else d.body

  unfoldable pub prepare :
      Endpoint → Option (Text × Json) → List MutationPoint → Option BodyDefinition → PreparedRequest
  unfolding fill_points override_body json_body_of data_body_of
  prepare e override points definition =
      let f =
        fill_points override points
          (record { path = e.path; params = []; headers = []; cookies = [] }) in
      let plain : PreparedRequest = record {
        url = full_url e.base_url f.path;
        params = f.params;
        headers = f.headers;
        cookies = f.cookies;
        json_body = none;
        data_body = none;
        media_type = none;
      } in
      elim definition [
        | none ↦ plain
        | some d ↦ record plain {
          json_body = json_body_of d.media_type (overridden override points d);
          data_body = data_body_of d.media_type (overridden override points d);
          media_type = some d.media_type;
        }
      ]

  unfoldable pub build_prepared_request : Endpoint → Option (Text × Json) → Fallible PreparedRequest
  unfolding prepare eligible_points by_key
  build_prepared_request e override = and_then (eligible_points w e) (λ points.
      and_then (body_definition w e)
        (λ definition. inr (prepare e override (by_key [] points) definition)))

  -- The endpoint has a request: its schemas raise no exception.
  abbrev pub is_prepared : Endpoint → Bool
  is_prepared e = elim (build_prepared_request e none) [ inl f ↦ false | inr prepared ↦ true ]

  -- _sample_value
  unfoldable pub sample_value : Parameter → Option Text → Text
  sample_value p resource_id =
      let documented =
        if not (is_null p.example)
        then text_of w p.example
        else elim (entry (codes "example") p.schema) [
          | some v ↦ text_of w v
          | none ↦ elim (entry (codes "default") p.schema) [
            | some v ↦ text_of w v
            | none ↦
                if is_text (codes "integer") (json_or (entry (codes "type") p.schema) null)
                then text_of w (json_or (entry (codes "minimum") p.schema) (number (codes "1")))
                else codes "test"
          ]
        ] in
      elim resource_id [
        | none ↦ documented
        | some id ↦ if not (is_empty id) && text_eq p.location path_location then id else documented
      ]

  unfoldable pub fill_path : List Parameter → Option Text → Text → Text
  unfolding sample_value
  fill_path [] resource_id path = path
  fill_path (p ∷ ps) resource_id path = fill_path ps resource_id (
      if text_eq p.location path_location
      then replace (braced p.name) (w.quote (sample_value p resource_id)) path
      else path)

  unfoldable pub endpoint_url : Endpoint → Option Text → Text
  unfolding fill_path
  endpoint_url e resource_id = full_url e.base_url (fill_path e.parameters resource_id e.path)
