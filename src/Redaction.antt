-- ===== src/Redaction.antt =====
-- `redact`, `redact_known` and `redact_known_values` of app/core/logging.py, on JSON values. `mask` is
-- `BEARER.sub`: the regular expression of bearer and basic credentials.
pub mod Laws
mod Tests
use api_scanner.Common.{
  ℕ, Bool, true, false, ◌||◌, List, [], ◌∷◌, if◌then◌else◌, any, is_empty, length, leb,
}
use api_scanner.Common.Text.{Text, codes, occurs, lower, replace}
use api_scanner.Json.{Json, null, bool, number, str, arr, obj, Items, nil, cons, Fields, end, field}

-- The words of SECRET_KEYS; `proxy-authorization` and `set-cookie` hold one of them.
abbrev pub secret_words : List Text
secret_words =
    codes "authorization"
    ∷ codes "apikey"
    ∷ codes "api-key"
    ∷ codes "api_key"
    ∷ codes "token"
    ∷ codes "password"
    ∷ codes "secret"
    ∷ codes "cookie"
    ∷ []

-- SECRET_KEYS.search(key)
unfoldable pub is_secret : Text → Bool
is_secret key = any (λ word. occurs word (lower key)) secret_words

abbrev pub redacted : Text
redacted = codes "[REDACTED]"

-- The cases of `redact` after the test on the key; an item of a list has no key.
unfoldable mutual
  pub redact_value : (Text → Text) → Json → Json
  redact_value mask null = null
  redact_value mask (bool b) = bool b
  redact_value mask (number n) = number n
  redact_value mask (str t) = str (mask t)
  redact_value mask (arr items) = arr (redact_items mask items)
  redact_value mask (obj fields) = obj (redact_fields mask fields)

  pub redact_items : (Text → Text) → Items → Items
  redact_items mask nil = nil
  redact_items mask (cons v items) = cons (redact_value mask v) (redact_items mask items)

  pub redact_fields : (Text → Text) → Fields → Fields
  redact_fields mask end = end
  redact_fields mask (field k v fields) =
      field k (if is_secret k then str redacted else redact_value mask v)
        (redact_fields mask fields)

unfoldable pub redact : (Text → Text) → Text → Json → Json
unfolding redact_value is_secret
redact mask key value = if is_secret key then str redacted else redact_value mask value

-- item.replace(secret, "[REDACTED]") for each secret
abbrev hide : List Text → Text → Text
hide [] t = t
hide (secret ∷ secrets) t = hide secrets (replace secret redacted t)

-- `replace` on a JSON value: every string of the values is replaced, and no key.
unfoldable mutual
  pub replace_value : (Text → Text) → Json → Json
  replace_value f null = null
  replace_value f (bool b) = bool b
  replace_value f (number n) = number n
  replace_value f (str t) = str (f t)
  replace_value f (arr items) = arr (replace_items f items)
  replace_value f (obj fields) = obj (replace_fields f fields)

  pub replace_items : (Text → Text) → Items → Items
  replace_items f nil = nil
  replace_items f (cons v items) = cons (replace_value f v) (replace_items f items)

  pub replace_fields : (Text → Text) → Fields → Fields
  replace_fields f end = end
  replace_fields f (field k v fields) = field k (replace_value f v) (replace_fields f fields)

-- {str(secrets[name]) for name in ("token", "key", "password") if ... and len(...) >= 3}
unfoldable pub known_secrets : List Text → List Text
known_secrets [] = []
known_secrets (s ∷ ss) = if leb 3 (length s) then s ∷ known_secrets ss else known_secrets ss

unfoldable pub redact_known : (Text → Text) → List Text → Json → Json
unfolding redact replace_value known_secrets
redact_known mask secrets value =
    replace_value (hide (known_secrets secrets)) (redact mask [] value)

unfoldable pub redact_known_values : (Text → Text) → List Text → Json → Json
unfolding replace_value known_secrets
redact_known_values mask secrets value =
    replace_value (λ t. hide (known_secrets secrets) (mask t)) value
