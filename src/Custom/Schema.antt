-- ===== src/Custom/Schema.antt =====
-- Sample values of a JSON schema: `_schema_type`, `_sample` and `_body_definition` of
-- app/security_tests/input_validation.py. A schema of the wrong shape raises an exception: an
-- `items()` of what is no dict, a minimum that is no number.
use api_scanner.Common.{
  ℕ, zero, suc, Bool, true, false, not, ◌||◌, Option, none, some, List, [], ◌∷◌, if◌then◌else◌,
  is_empty, inl, inr,
}
use api_scanner.Common.Text.{Text, codes, text_eq}
use api_scanner.Json.{
  Json, null, bool, number, str, arr, obj, Items, nil, cons, Fields, end, field, get,
}
use api_scanner.Custom.{Endpoint, Fallible, and_then, Web}

abbrev pub empty_dict : Json
empty_dict = obj end

abbrev pub test_text : Json
test_text = str (codes "test")

abbrev pub is_dict : Json → Bool
is_dict (obj fields) = true
is_dict _ = false

abbrev pub fields_of : Json → Fields
fields_of (obj fields) = fields
fields_of _ = end

abbrev pub is_null : Json → Bool
is_null null = true
is_null _ = false

abbrev pub no_fields : Fields → Bool
no_fields end = true
no_fields _ = false

-- value if isinstance(value, dict) else {}
abbrev pub dict_or_empty : Json → Json
dict_or_empty v = if is_dict v then v else empty_dict

abbrev pub json_or : Option Json → Json → Json
json_or none d = d
json_or (some v) d = v

-- schema.get(key), of a dict
unfoldable pub entry : Text → Json → Option Json
entry key v = get key (fields_of v)

-- Python's truth of a JSON value.
abbrev pub is_truthy : Json → Bool
is_truthy null = false
is_truthy (bool b) = b
is_truthy (number n) =
    not (text_eq n (codes "0") || text_eq n (codes "0.0") || text_eq n (codes "-0.0"))
is_truthy (str t) = not (is_empty t)
is_truthy (arr nil) = false
is_truthy (arr _) = true
is_truthy (obj end) = false
is_truthy (obj _) = true

abbrev pub is_text : Text → Json → Bool
is_text t (str s) = text_eq s t
is_text t _ = false

-- next((value for value in declared if value != "null"), "string")
abbrev pub first_type : Items → Json
first_type nil = str (codes "string")
first_type (cons v items) = if is_text (codes "null") v then first_type items else v

abbrev pub declared_type : Json → Json
declared_type schema = elim (json_or (entry (codes "type") schema) null) [
  | arr items ↦ first_type items
  | v ↦ v
]

abbrev pub exists : Option Json → Bool
exists none = false
exists (some v) = true

unfoldable pub schema_type : Web → Json → Text
unfolding entry
schema_type w schema =
    if is_truthy (declared_type schema)
    then w.str_of (declared_type schema)
    else if exists (entry (codes "properties") schema)
    then codes "object"
    else if exists (entry (codes "items") schema)
    then codes "array"
    else codes "string"

-- The first of the keys that the schema has.
abbrev first_key : List Text → Json → Option Json
first_key [] schema = none
first_key (k ∷ ks) schema = elim (entry k schema) [ some v ↦ some v | none ↦ first_key ks schema ]

-- The first item of a list that is not empty.
abbrev first_item : Option Json → Option Json
first_item (some (arr (cons v items))) = some v
first_item _ = none

-- choices[0], if it is a dict
abbrev first_dict : Option Json → Option Json
first_dict choices = elim (first_item choices) [ some (obj fields) ↦ some (obj fields) | _ ↦ none ]

abbrev first_choice : Json → Option Json
first_choice schema = elim (first_dict (entry (codes "oneOf") schema)) [
  | some c ↦ some c
  | none ↦ first_dict (entry (codes "anyOf") schema)
]

-- fields[key] = value
unfoldable pub put_field : Text → Json → Fields → Fields
put_field key value end = field key value end
put_field key value (field k v fields) =
    if text_eq k key then field k value fields else field k v (put_field key value fields)

-- fields.update(more)
unfoldable pub update_fields : Fields → Fields → Fields
unfolding put_field
update_fields fields end = fields
update_fields fields (field k v more) = update_fields (put_field k v fields) more

-- merged["properties"].update(value)
abbrev update_from : Web → Fields → Json → Fallible Fields
update_from w properties (obj more) = inr (update_fields properties more)
update_from w properties v = and_then (w.pairs v) (λ more. inr (update_fields properties more))

-- merged["properties"] after the loop over `allOf`
unfoldable pub merge_parts : Web → Fields → Items → Fallible Fields
unfolding update_fields entry
merge_parts w properties nil = inr properties
merge_parts w properties (cons part parts) =
    and_then
      (if is_dict part
        then update_from w properties (json_or (entry (codes "properties") part) empty_dict)
        else inr properties)
      (λ more. merge_parts w more parts)

abbrev merged_schema : Fields → Option Json
merged_schema properties =
    if no_fields properties
    then none
    else some (
        obj (
          field (codes "type") (str (codes "object"))
            (field (codes "properties") (obj properties) end)))

abbrev merged : Web → Json → Fallible (Option Json)
merged w schema = elim (entry (codes "allOf") schema) [
  | some (arr parts) ↦
      and_then (merge_parts w end parts) (λ properties. inr (merged_schema properties))
  | _ ↦ inr none
]

unfoldable pub sample_each : (Json → Fallible Json) → Fields → Fallible Fields
sample_each f end = inr end
sample_each f (field k v fields) =
    and_then (f v) (λ u. and_then (sample_each f fields) (λ more. inr (field k u more)))

-- {str(name): _sample(...) for name, value in properties.items()}
abbrev sample_fields : Web → (Json → Json → Fallible Json) → Json → Fallible Json
sample_fields w rec (obj fields) =
    and_then (sample_each (λ v. rec test_text (dict_or_empty v)) fields) (λ more. inr (obj more))
sample_fields w rec properties = inl (w.items_failure properties)

-- The end of `_sample`: the value of a type; `rec` samples a schema one level down.
unfoldable pub sample_kind : Web → (Json → Json → Fallible Json) → Json → Json → Fallible Json
unfolding schema_type sample_each
sample_kind w rec fallback schema =
    let kind = schema_type w schema in
    if text_eq kind (codes "object")
    then sample_fields w rec (json_or (entry (codes "properties") schema) empty_dict)
    else if text_eq kind (codes "array")
    then and_then
        (rec test_text (dict_or_empty (json_or (entry (codes "items") schema) empty_dict)))
        (λ v. inr (arr (cons v nil)))
    else if text_eq kind (codes "integer")
    then w.integer (json_or (entry (codes "minimum") schema) (number (codes "1")))
    else if text_eq kind (codes "number")
    then w.float (json_or (entry (codes "minimum") schema) (number (codes "1")))
    else if text_eq kind (codes "boolean")
    then inr (bool true)
    else inr fallback

unfoldable pub sample_step : Web → (Json → Json → Fallible Json) → Json → Json → Fallible Json
unfolding sample_kind entry merge_parts
sample_step w rec fallback schema =
    elim (first_key (codes "example" ∷ codes "default" ∷ codes "const" ∷ []) schema) [
      | some v ↦ inr v
      | none ↦ elim (first_item (entry (codes "examples") schema)) [
        | some v ↦ inr v
        | none ↦ elim (first_item (entry (codes "enum") schema)) [
          | some v ↦ inr v
          | none ↦ elim (first_choice schema) [
            | some choice ↦ rec fallback choice
            | none ↦ and_then (merged w schema) (λ whole. elim whole [
              | some whole ↦ rec fallback whole
              | none ↦ sample_kind w rec fallback schema
            ])
          ]
        ]
      ]
    ]

-- _sample(schema, fallback=fallback, depth=9 - levels): past depth 8 it gives the fallback.
unfoldable pub sample : Web → ℕ → Json → Json → Fallible Json
unfolding sample_step
sample w zero fallback schema = inr fallback
sample w (suc levels) fallback schema = sample_step w (sample w levels) fallback schema

-- What `_body_definition` returns for a body.
pub record BodyDefinition : Type 0 where
  pub media_type : Text
  pub body : Json
  pub schema : Json

abbrev first_name : Fields → Text
first_name end = []
first_name (field k v fields) = k

-- The preferred media type of those in `content`, or the first.
unfoldable pub preferred : Fields → Text
preferred content =
    if exists (get (codes "application/json") content)
    then codes "application/json"
    else if exists (get (codes "application/x-www-form-urlencoded") content)
    then codes "application/x-www-form-urlencoded"
    else if exists (get (codes "multipart/form-data") content)
    then codes "multipart/form-data"
    else first_name content

unfoldable pub define_body : Web → Json → Fields → Fallible BodyDefinition
unfolding preferred sample entry
define_body w request_body content =
    let definition = dict_or_empty (json_or (get (preferred content) content) empty_dict) in
    let schema = dict_or_empty (json_or (entry (codes "schema") definition) empty_dict) in
    let example =
      json_or (entry (codes "example") definition)
        (json_or (entry (codes "example") request_body) null) in
    and_then (if is_null example then sample w 9 empty_dict schema else inr example)
      (λ body. inr (record { media_type = preferred content; body = body; schema = schema }))

-- None, None, {} if there is no content.
unfoldable pub body_definition : Web → Endpoint → Fallible (Option BodyDefinition)
unfolding define_body entry
body_definition w e =
    let content = fields_of (json_or (entry (codes "content") e.request_body) empty_dict) in
    if no_fields content
    then inr none
    else and_then (define_body w e.request_body content) (λ d. inr (some d))
