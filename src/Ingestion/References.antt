-- ===== src/Ingestion/References.antt =====
-- `_local_ref`, `_resolve` and `_resolve_deep` of app/ingestion/openapi.py.
use api_scanner.Common.{
  ℕ, zero, suc, true, false, Option, none, some, List, [], ◌∷◌, drop, if◌then◌else◌,
}
use api_scanner.Common.Text.{Text, codes, text_eq, starts_with, replace, split}
use api_scanner.Common.Sorting.{is_in}
use api_scanner.Json.{
  Json, null, bool, number, str, arr, obj, Items, nil, cons, Fields, end, field, get,
}
use api_scanner.Custom.Schema.{update_fields, empty_dict}
use api_scanner.Ingestion.{Reader}

abbrev pub ref_key : Text
ref_key = codes "$ref"

-- part.replace("~1", "/").replace("~0", "~")
unfoldable pub unescape : Text → Text
unescape part = replace (codes "~0") (codes "~") (replace (codes "~1") (codes "/") part)

-- The loop over the parts of a reference.
unfoldable pub follow : Json → List Text → Option Json
unfolding unescape get
follow current [] = some current
follow (obj fields) (part ∷ parts) = elim (get (unescape part) fields) [
  | none ↦ none
  | some v ↦ follow v parts
]
follow _ (part ∷ parts) = none

abbrev dict_of : Option Json → Fields
dict_of (some (obj fields)) = fields
dict_of _ = end

-- _local_ref
unfoldable pub local_ref : Fields → Text → Fields
unfolding follow split
local_ref document reference =
    if starts_with (codes "#/") reference
    then dict_of (follow (obj document) (split b'/' (drop 2 reference)))
    else end

-- {k: v for k, v in fields.items() if k != key}
unfoldable pub without_key : Text → Fields → Fields
without_key key end = end
without_key key (field k v fields) =
    let rest = without_key key fields in if text_eq k key then rest else field k v rest

-- {**_local_ref(document, reference), **{the entries but "$ref"}}
unfoldable pub inlined : Fields → Text → Fields → Fields
unfolding local_ref without_key update_fields
inlined document reference fields =
    update_fields (local_ref document reference) (without_key ref_key fields)

-- _resolve
unfoldable pub resolve : Reader → Fields → Json → Json
unfolding inlined get
resolve r document (obj fields) = elim (get ref_key fields) [
  | none ↦ obj fields
  | some reference ↦ obj (inlined document (r.str_of reference) fields)
]
resolve r document v = v

unfoldable pub map_items : (Json → Json) → Items → Items
map_items f nil = nil
map_items f (cons v items) = cons (f v) (map_items f items)

unfoldable pub map_fields : (Json → Json) → Fields → Fields
map_fields f end = end
map_fields f (field k v fields) = field k (f v) (map_fields f fields)

-- The reference of a dict, if it is a text that starts with "#/".
abbrev pub local_text : Option Json → Option Text
local_text (some (str t)) = if starts_with (codes "#/") t then some t else none
local_text _ = none

-- _resolve_deep, with the levels left: 31 at depth 0.
unfoldable pub resolve_deep : Fields → List Text → ℕ → Json → Json
unfolding inlined map_items map_fields
resolve_deep document seen zero v = empty_dict
resolve_deep document seen (suc levels) (obj fields) = elim (local_text (get ref_key fields)) [
  | none ↦ obj (map_fields (resolve_deep document seen levels) fields)
  | some reference ↦ elim (is_in reference seen) [
    | true ↦ empty_dict
    | false ↦
        resolve_deep document (reference ∷ seen) levels (obj (inlined document reference fields))
  ]
]
resolve_deep document seen (suc levels) (arr items) =
    arr (map_items (resolve_deep document seen levels) items)
resolve_deep document seen (suc levels) null = null
resolve_deep document seen (suc levels) (bool b) = bool b
resolve_deep document seen (suc levels) (number n) = number n
resolve_deep document seen (suc levels) (str t) = str t
