-- ===== src/Json.antt =====
-- JSON values as Python's `json` reads them. A number is kept as its literal; the keys of an object
-- stand in the order of the dict.
use api_scanner.Common.{Bool, List, [], ◌∷◌, ◌++◌, Option, none, some, if◌then◌else◌}
use api_scanner.Common.Text.{Text, text_eq}

mutual
  pub data Json : Type 0 where
    null : Json
    bool : Bool → Json
    number : Text → Json
    str : Text → Json
    arr : Items → Json
    obj : Fields → Json

  pub data Items : Type 0 where
    nil : Items
    cons : Json → Items → Items

  pub data Fields : Type 0 where
    end : Fields
    field : Text → Json → Fields → Fields

-- d.get(key); a dict holds a key once.
unfoldable pub get : Text → Fields → Option Json
get key end = none
get key (field k v fs) = if text_eq k key then some v else get key fs

-- The dicts of a value, at whatever depth.
unfoldable mutual
  pub dicts_in : Json → List Fields
  dicts_in null = []
  dicts_in (bool b) = []
  dicts_in (number n) = []
  dicts_in (str t) = []
  dicts_in (arr items) = dicts_in_items items
  dicts_in (obj fields) = fields ∷ dicts_in_fields fields

  pub dicts_in_items : Items → List Fields
  dicts_in_items nil = []
  dicts_in_items (cons v items) = dicts_in v ++ dicts_in_items items

  pub dicts_in_fields : Fields → List Fields
  dicts_in_fields end = []
  dicts_in_fields (field k v fields) = dicts_in v ++ dicts_in_fields fields
