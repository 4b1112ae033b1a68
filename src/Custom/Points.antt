-- ===== src/Custom/Points.antt =====
-- Mutation points and the requests built from them: `_body_points`, `eligible_points`,
-- `_replace_body_value` and `build_prepared_request` of app/security_tests/input_validation.py.
use api_scanner.Common.{
  ℕ, zero, suc, Bool, true, false, not, ◌||◌, ◌&&◌, Option, none, some, List, [], ◌∷◌, ◌++◌, map,
  ltb, ◌==◌, if◌then◌else◌, is_empty, inr,
}
use api_scanner.Common.Text.{strip, Text, codes, text_eq, lower, join}
use api_scanner.Common.Sorting.{is_in}
use api_scanner.Json.{Json, null, bool, number, str, arr, obj, Items, nil, cons, Fields, end, field}
use api_scanner.Custom.{
  Parameter, Endpoint, Part, key, index, MutationPoint, Fallible, and_then, Web,
}
use api_scanner.Custom.Schema.{
  test_text, empty_dict, is_null, dict_or_empty, json_or, entry, schema_type, sample,
  BodyDefinition, body_definition,
}

-- UNSAFE_HEADER_NAMES
abbrev pub unsafe_header_names : List Text
unsafe_header_names =
    codes "authorization"
    ∷ codes "cookie"
    ∷ codes "host"
    ∷ codes "content-length"
    ∷ codes "transfer-encoding"
    ∷ []

-- A str, int, float, bool or None.
abbrev pub is_scalar : Json → Bool
is_scalar (arr _) = false
is_scalar (obj _) = false
is_scalar _ = true

-- _wire_safe_header_value, on the serialised value
unfoldable pub wire_safe_header_value : Text → Text
wire_safe_header_value s = strip (map (λ c. if ltb c 32 || c == 127 then b' ' else c) s)

abbrev pub query_location : Text
query_location = codes "query"

abbrev pub body_location : Text
body_location = codes "body"

abbrev pub path_location : Text
path_location = codes "path"

module _ (w : Web) where
  abbrev part_text : Part → Text
  part_text (key k) = k
  part_text (index i) = w.digits i

  -- ".".join(str(part) for part in path) or "$body"
  unfoldable pub body_name : List Part → Text
  body_name path =
      let name = join (codes ".") (map part_text path) in
      if is_empty name then codes "$body" else name

  unfoldable pub body_point : Text → List Part → Json → Json → MutationPoint
  unfolding body_name
  body_point media_type path schema value = record {
    key = codes "body:" ++ body_name path;
    name = body_name path;
    location = body_location;
    baseline = value;
    schema_type = schema_type w schema;
    body_path = path;
    media_type = some media_type;
  }

  -- properties.get(key, {}), if both are dicts
  abbrev pub child_schema : Json → Text → Json
  child_schema schema k =
      dict_or_empty
        (json_or (entry k (json_or (entry (codes "properties") schema) empty_dict)) empty_dict)

  abbrev pub item_schema : Json → Json
  item_schema schema = dict_or_empty (json_or (entry (codes "items") schema) empty_dict)

  -- _body_points; `left` is what remains of the three items that are read of a list, and `at` the
  -- index of the next one.
  unfoldable mutual
    pub body_points : Text → Json → List Part → Json → List MutationPoint
    body_points media_type schema path null = body_point media_type path schema null ∷ []
    body_points media_type schema path (bool b) = body_point media_type path schema (bool b) ∷ []
    body_points media_type schema path (number n) =
        body_point media_type path schema (number n) ∷ []
    body_points media_type schema path (str t) = body_point media_type path schema (str t) ∷ []
    body_points media_type schema path (arr items) =
        item_points media_type (item_schema schema) path 0 3 items
    body_points media_type schema path (obj fields) = field_points media_type schema path fields

    pub item_points : Text → Json → List Part → ℕ → ℕ → Items → List MutationPoint
    item_points media_type schema path at zero items = []
    item_points media_type schema path at (suc left) nil = []
    item_points media_type schema path at (suc left) (cons v items) =
        body_points media_type schema (path ++ index at ∷ []) v
        ++ item_points media_type schema path (suc at) left items

    pub field_points : Text → Json → List Part → Fields → List MutationPoint
    field_points media_type schema path end = []
    field_points media_type schema path (field k v fields) =
        body_points media_type (child_schema schema k) (path ++ key k ∷ []) v
        ++ field_points media_type schema path fields

  abbrev pub sample_of : Parameter → Fallible Json
  sample_of p =
      if is_null p.example then sample w 9 test_text (dict_or_empty p.schema) else inr p.example

  -- The parameter is no mutation point whatever its value: `continue`.
  unfoldable pub is_left_out : Parameter → Bool
  is_left_out p =
      not (is_in p.location (path_location ∷ query_location ∷ codes "header" ∷ codes "cookie" ∷ []))
      || is_empty p.name
      || (text_eq p.location (codes "header") && is_in (lower p.name) unsafe_header_names)

  abbrev pub parameter_point : Parameter → Json → MutationPoint
  parameter_point p value = record {
    key = p.location ++ (codes ":" ++ p.name);
    name = p.name;
    location = p.location;
    baseline = value;
    schema_type = schema_type w (dict_or_empty p.schema);
    body_path = [];
    media_type = none;
  }

  abbrev with_parameter : Parameter → Json → List MutationPoint → List MutationPoint
  with_parameter p value points =
      if is_scalar value then parameter_point p value ∷ points else points

  unfoldable pub parameter_points : List Parameter → Fallible (List MutationPoint)
  unfolding is_left_out
  parameter_points [] = inr []
  parameter_points (p ∷ ps) =
      let rest = parameter_points ps in
      if is_left_out p
      then rest
      else and_then (sample_of p)
          (λ value. and_then rest (λ points. inr (with_parameter p value points)))

  abbrev pub has_body : BodyDefinition → Bool
  has_body d = not (is_empty d.media_type) && not (is_null d.body)

  abbrev points_of_body : Option BodyDefinition → List MutationPoint
  points_of_body none = []
  points_of_body (some d) = if has_body d then body_points d.media_type d.schema [] d.body else []

  unfoldable pub eligible_points : Endpoint → Fallible (List MutationPoint)
  unfolding parameter_points body_points
  eligible_points e =
      and_then (parameter_points e.parameters)
        (λ points. and_then (body_definition w e) (λ d. inr (points ++ points_of_body d)))

-- d[key] = value, in a dict of points
unfoldable pub put_point : MutationPoint → List MutationPoint → List MutationPoint
put_point p [] = p ∷ []
put_point p (q ∷ qs) = if text_eq q.key p.key then p ∷ qs else q ∷ put_point p qs

-- {point.key: point for point in points}
unfoldable pub by_key : List MutationPoint → List MutationPoint → List MutationPoint
unfolding put_point
by_key known [] = known
by_key known (p ∷ ps) = by_key (put_point p known) ps

-- overrides.get(key, default); overrides hold one value at most.
abbrev pub override_or : Option (Text × Json) → Text → Json → Json
override_or none k d = d
override_or (some (j, v)) k d = if text_eq j k then v else d

-- body[path[0]][path[1]]... = value; a path that leads nowhere changes nothing.
unfoldable mutual
  pub replace_body_value : List Part → Json → Json → Json
  replace_body_value [] value body = value
  replace_body_value (key k ∷ path) value (obj fields) = obj (replace_in_field k path value fields)
  replace_body_value (index i ∷ path) value (arr items) = arr (replace_in_item i path value items)
  replace_body_value (_ ∷ path) value body = body

  pub replace_in_field : Text → List Part → Json → Fields → Fields
  replace_in_field k path value end = end
  replace_in_field k path value (field j v fields) =
      if text_eq j k
      then field j (replace_body_value path value v) fields
      else field j v (replace_in_field k path value fields)

  pub replace_in_item : ℕ → List Part → Json → Items → Items
  replace_in_item i path value nil = nil
  replace_in_item zero path value (cons v items) = cons (replace_body_value path value v) items
  replace_in_item (suc i) path value (cons v items) = cons v (replace_in_item i path value items)
