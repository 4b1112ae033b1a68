-- ===== src/Ingestion/Servers.antt =====
-- `_servers` of app/ingestion/openapi.py: the version and the base URLs.
use api_scanner.Common.{◌||◌, Option, none, some, List, [], ◌∷◌, ◌++◌, if◌then◌else◌}
use api_scanner.Common.Text.{Text, codes, text_eq, starts_with, replace, rstrip, lstrip, before}
use api_scanner.Json.{Json, null, str, arr, obj, nil, cons, Fields, end, field, get}
use api_scanner.Custom.Schema.{json_or, is_truthy, empty_dict}
use api_scanner.Ingestion.{Reader, Parsed, ok, invalid, crashed, ◌>>=◌, or_crash, iterate}

-- variable.get("default", "") if isinstance(variable, dict) else ""
abbrev default_of : Json → Json
default_of (obj fields) = json_or (get (codes "default") fields) (str [])
default_of _ = str []

-- server_url.replace("{" + name + "}", str(default)) for each variable
unfoldable pub fill_variables : Reader → Fields → Text → Text
unfolding replace
fill_variables r end url = url
fill_variables r (field name variable variables) url =
    fill_variables r variables
      (replace (codes "{" ++ (name ++ codes "}")) (r.str_of (default_of variable)) url)

-- server.get("variables", {}).items()
abbrev variables_of : Json → Parsed Fields
variables_of (obj fields) = ok fields
variables_of _ = crashed

-- urljoin(target_url.rstrip("/") + "/", url)
abbrev pub joined : Reader → Text → Text → Text
joined r target_url url = r.urljoin (rstrip b'/' target_url ++ codes "/") url

abbrev server_url : Reader → Text → Fields → Parsed (List Text)
server_url r target_url server =
    let url = json_or (get (codes "url") server) null in
    if is_truthy url
    then (do
      variables ← variables_of (json_or (get (codes "variables") server) empty_dict)
      ok (joined r target_url (fill_variables r variables (r.str_of url)) ∷ []))
    else ok []

-- The loop over the servers; what is no dict is passed over.
unfoldable pub server_urls : Reader → Text → List Json → Parsed (List Text)
unfolding fill_variables
server_urls r target_url [] = ok []
server_urls r target_url (obj server ∷ servers) = do
  url ← server_url r target_url server
  urls ← server_urls r target_url servers
  ok (url ++ urls)
server_urls r target_url (_ ∷ servers) = server_urls r target_url servers

abbrev or_target : List Text → Text → List Text
or_target [] target_url = target_url ∷ []
or_target urls target_url = urls

-- schemes[0]; `none` is an IndexError, KeyError or TypeError.
abbrev first_scheme : Json → Option Json
first_scheme (arr (cons v items)) = some v
first_scheme (str (c ∷ t)) = some (str (c ∷ []))
first_scheme _ = none

abbrev schemes_of : Fields → Text → Json
schemes_of document target_url =
    let schemes = json_or (get (codes "schemes") document) null in
    if is_truthy schemes then schemes else arr (cons (str (before b':' target_url)) nil)

unfoldable pub swagger_url : Reader → Fields → Text → Parsed Text
swagger_url r document target_url =
    let host = json_or (get (codes "host") document) null in
    let base_path = r.str_of (json_or (get (codes "basePath") document) (str (codes "/"))) in
    if is_truthy host
    then (do
      scheme ← or_crash (first_scheme (schemes_of document target_url))
      ok (rstrip b'/' (r.str_of scheme ++ (codes "://" ++ (r.str_of host ++ base_path)))))
    else ok (joined r target_url (lstrip b'/' base_path))

unfoldable pub openapi_servers : Reader → Fields → Text → Text → Parsed (Text × List Text)
unfolding server_urls
openapi_servers r document target_url version =
    if starts_with (codes "3.0") version || starts_with (codes "3.1") version
    then (do
      listed ← or_crash (iterate (json_or (get (codes "servers") document) (arr nil)))
      urls ← server_urls r target_url listed
      ok (version, or_target urls target_url))
    else invalid (codes "unsupported OpenAPI version: " ++ version)

-- _servers
unfoldable pub servers : Reader → Fields → Text → Parsed (Text × List Text)
unfolding openapi_servers swagger_url
servers r document target_url = elim (get (codes "openapi") document) [
  | some version ↦ openapi_servers r document target_url (r.str_of version)
  | none ↦
      if text_eq (r.str_of (json_or (get (codes "swagger") document) (str []))) (codes "2.0")
      then (do url ← swagger_url r document target_url; ok (codes "2.0", url ∷ []))
      else invalid (codes "document is neither OpenAPI 3.x nor Swagger 2.0")
]
