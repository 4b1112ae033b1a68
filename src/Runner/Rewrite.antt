-- ===== src/Runner/Rewrite.antt =====
-- `_rewrite_wuppie_specification` and `_contains_external_reference` of engine_runner/main.py. A JSON
-- value is the copy that `json.loads(json.dumps(document))` gives.
use api_scanner.Common.{Bool, false, not, ◌||◌, Option, some, if◌then◌else◌}
use api_scanner.Common.Text.{Text, codes, text_eq, starts_with}
use api_scanner.Json.{
  Json, null, bool, number, str, arr, obj, Items, nil, cons, Fields, end, field, get,
}
use api_scanner.Custom.Schema.{json_or, exists, put_field}
use api_scanner.Runner.{World}

abbrev pub servers : Text
servers = codes "servers"

-- [{"url": proxy_url}]
abbrev pub proxied : Text → Json
proxied url = arr (cons (obj (field (codes "url") (str url) end)) nil)

-- replace_servers. The source sets the entry "servers" of a dict first and walks into its new value
-- too, which has no such entry: the walk leaves it as it is.
unfoldable mutual
  pub replace_servers : Text → Json → Json
  replace_servers url null = null
  replace_servers url (bool b) = bool b
  replace_servers url (number n) = number n
  replace_servers url (str t) = str t
  replace_servers url (arr items) = arr (replace_items url items)
  replace_servers url (obj fields) = obj (replace_fields url fields)

  pub replace_items : Text → Items → Items
  replace_items url nil = nil
  replace_items url (cons v items) = cons (replace_servers url v) (replace_items url items)

  pub replace_fields : Text → Fields → Fields
  replace_fields url end = end
  replace_fields url (field k v fields) =
      field k (if text_eq k servers then proxied url else replace_servers url v)
        (replace_fields url fields)

-- str(document.get("swagger")) == "2.0"
unfoldable pub is_swagger : World → Fields → Bool
is_swagger w document =
    text_eq (w.str_of (json_or (get (codes "swagger") document) null)) (codes "2.0")

unfoldable pub is_openapi : Fields → Bool
is_openapi document = exists (get (codes "openapi") document)

unfoldable pub point_swagger : World → Text → Fields → Fields
unfolding put_field
point_swagger w url document =
    let parsed = w.split_url url in
    put_field (codes "basePath") (str parsed.path) (
      put_field (codes "host") (str parsed.netloc)
        (put_field (codes "schemes") (arr (cons (str parsed.scheme) nil)) document))

-- _rewrite_wuppie_specification
unfoldable pub rewrite_specification : World → Text → Fields → Fields
unfolding replace_servers put_field is_swagger is_openapi point_swagger
rewrite_specification w url document =
    if is_openapi document
    then replace_fields url (put_field servers (proxied url) document)
    else if is_swagger w document
    then point_swagger w url document
    else document

-- isinstance(reference, str) and not reference.startswith("#/")
abbrev pub is_external : Option Json → Bool
is_external (some (str t)) = not (starts_with (codes "#/") t)
is_external _ = false

-- _contains_external_reference
unfoldable mutual
  pub refers_outside : Json → Bool
  refers_outside null = false
  refers_outside (bool b) = false
  refers_outside (number n) = false
  refers_outside (str t) = false
  refers_outside (arr items) = items_outside items
  refers_outside (obj fields) = is_external (get (codes "$ref") fields) || fields_outside fields

  pub items_outside : Items → Bool
  items_outside nil = false
  items_outside (cons v items) = refers_outside v || items_outside items

  pub fields_outside : Fields → Bool
  fields_outside end = false
  fields_outside (field k v fields) = refers_outside v || fields_outside fields
