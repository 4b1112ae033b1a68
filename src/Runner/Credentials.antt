-- ===== src/Runner/Credentials.antt =====
-- `_authentication_headers` and `_sanitize_tool_output` of engine_runner/main.py.
use api_scanner.Common.{
  ◌&&◌, ◌||◌, Option, none, some, List, [], ◌∷◌, ◌++◌, leb, length, if◌then◌else◌,
}
use api_scanner.Common.Text.{Text, codes, replace}
use api_scanner.Json.{Json, null, str, Fields, get}
use api_scanner.Custom.Schema.{json_or, is_text, is_null, is_truthy}
use api_scanner.Redaction.{redacted}
use api_scanner.Runner.{World}

-- Two entries of the dict; `none` is the KeyError of a missing one.
abbrev both : Option Json → Option Json → Option (Json × Json)
both (some a) (some b) = some (a, b)
both _ _ = none

abbrev bearer_header : World → Option Json → Option (List (Text × Text))
bearer_header w none = none
bearer_header w (some token) =
    some ((codes "Authorization", codes "Bearer " ++ w.str_of token) ∷ [])

abbrev basic_header : World → Option (Json × Json) → Option (List (Text × Text))
basic_header w none = none
basic_header w (some (username, password)) = some (
    (
      codes "Authorization",
      codes "Basic " ++ w.base64 (w.str_of username ++ (codes ":" ++ w.str_of password)),
    )
    ∷ [])

abbrev key_header : World → Option (Json × Json) → Option (List (Text × Text))
key_header w none = none
key_header w (some (name, key)) = some ((w.str_of name, w.str_of key) ∷ [])

-- The headers of a dict of credentials that is not empty.
unfoldable pub headers_of : World → Fields → Option (List (Text × Text))
headers_of w auth =
    let kind = json_or (get (codes "type") auth) null in
    if is_null kind || is_text (codes "NONE") kind
    then some []
    else if is_text (codes "BEARER") kind
    then bearer_header w (get (codes "token") auth)
    else if is_text (codes "BASIC") kind
    then basic_header w (both (get (codes "username") auth) (get (codes "password") auth))
    else if is_text (codes "API_KEY") kind
        && is_text (codes "header") (json_or (get (codes "location") auth) (str (codes "header")))
    then key_header w (both (get (codes "name") auth) (get (codes "key") auth))
    else some []

-- _authentication_headers; `none` is a KeyError.
unfoldable pub authentication_headers : World → Option Fields → Option (List (Text × Text))
unfolding headers_of
authentication_headers w none = some []
authentication_headers w (some auth) = headers_of w auth

abbrev hide_secret : World → Option Json → Text → Text
hide_secret w none value = value
hide_secret w (some secret) value =
    if is_truthy secret && leb 3 (length (w.str_of secret))
    then replace (w.str_of secret) redacted value
    else value

abbrev hide_secrets : World → List Text → Option Fields → Text → Text
hide_secrets w [] auth value = value
hide_secrets w (name ∷ names) none value = value
hide_secrets w (name ∷ names) (some auth) value =
    hide_secrets w names (some auth) (hide_secret w (get name auth) value)

-- _sanitize_tool_output
unfoldable pub sanitize_tool_output : World → Text → Option Fields → Text
sanitize_tool_output w value authentication =
    w.mask
      (hide_secrets w (codes "token" ∷ codes "key" ∷ codes "password" ∷ []) authentication value)
