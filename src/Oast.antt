-- ===== src/Oast.antt =====
-- app/oast.py: the collector of out-of-band callbacks. Redis is the record Redis, its keys with a
-- time to live; `now` is the time of a request, in seconds.
pub mod Laws
mod Tests
use api_scanner.Common.{
  ℕ, ◌+◌, ◌≤◌, ◌<◌, ◌≡◌, ◌⊎◌, Bool, true, false, not, ◌&&◌, ◌||◌, Option, none, some, List, [], ◌∷◌,
  ◌++◌, leb, ◌==◌, if◌then◌else◌, is_empty, length, all,
}
use api_scanner.Common.Text.{Text, codes, text_eq}

pub record Redis : Type 1 where
  pub Store : Type 0
  pub get : ℕ → Text → Store → Option Text
  pub set : ℕ → ℕ → Text → Text → Store → Store
  pub delete : Text → Store → Store

-- GET, SET with EX, and DEL as Redis documents them.
pub record IsRedis (r : Redis) : Type 0 where
  pub get-set :
      (now ttl t : ℕ) (k v : Text) (s : r.Store)
      → t < now + ttl
      → r.get t k (r.set now ttl k v s) ≡ some v
  pub get-set_expired :
      (now ttl t : ℕ) (k v : Text) (s : r.Store)
      → now + ttl ≤ t
      → r.get t k (r.set now ttl k v s) ≡ none
  pub get-set_other :
      (now ttl t : ℕ) (k l v : Text) (s : r.Store)
      → text_eq k l ≡ false
      → r.get t l (r.set now ttl k v s) ≡ r.get t l s
  pub get-delete : (t : ℕ) (k : Text) (s : r.Store) → r.get t k (r.delete k s) ≡ none
  pub get-delete_other :
      (t : ℕ) (k l : Text) (s : r.Store)
      → text_eq k l ≡ false
      → r.get t l (r.delete k s) ≡ r.get t l s

abbrev pub is_between : ℕ → ℕ → ℕ → Bool
is_between low high c = leb low c && leb c high

-- [A-Za-z0-9_-]
abbrev pub is_token_char : ℕ → Bool
is_token_char c =
    is_between b'A' b'Z' c
    || is_between b'a' b'z' c
    || is_between b'0' b'9' c
    || c == b'_'
    || c == b'-'

-- TOKEN_PATTERN.fullmatch
unfoldable pub is_token : Text → Bool
is_token t = leb 16 (length t) && leb (length t) 128 && all is_token_char t

abbrev pub key_of : Text → Text
key_of token = codes "oast:" ++ token

abbrev pub is_one : Option Text → Bool
is_one none = false
is_one (some v) = text_eq v (codes "1")

abbrev pub exists : Option Text → Bool
exists none = false
exists (some v) = true

-- if not OAST_API_KEY or not value or not hmac.compare_digest(...): the header may be missing.
unfoldable pub is_authorised : Text → Option Text → Bool
is_authorised api_key none = false
is_authorised api_key (some v) = not (is_empty api_key) && not (is_empty v) && text_eq api_key v

-- What a request is answered: an error 401 or 404, no content, or a JSON value.
pub data Answer : Type 0 where
  unauthorised unknown_callback no_content registered : Answer
  hit : Bool → Answer

module _ (r : Redis) (api_key : Text) where
  unfoldable pub callback : ℕ → Text → r.Store → Answer × r.Store
  callback now token s =
      if not (is_token token)
      then (unknown_callback, s)
      else if exists (r.get now (key_of token) s)
      then (no_content, r.set now 600 (key_of token) (codes "1") s)
      else (no_content, s)

  unfoldable pub register : ℕ → Text → Option Text → r.Store → Answer × r.Store
  register now token header s =
      if not (is_authorised api_key header)
      then (unauthorised, s)
      else if not (is_token token)
      then (unknown_callback, s)
      else (registered, r.set now 600 (key_of token) (codes "0") s)

  unfoldable pub event : ℕ → Text → Option Text → r.Store → Answer × r.Store
  event now token header s =
      if not (is_authorised api_key header)
      then (unauthorised, s)
      else if not (is_token token)
      then (unknown_callback, s)
      else if is_one (r.get now (key_of token) s)
      then (hit true, r.delete (key_of token) s)
      else (hit false, s)

  pub data Request : Type 0 where
    calls : Text → Request
    registers polls : Text → Option Text → Request

  unfoldable pub serve : ℕ → Request → r.Store → Answer × r.Store
  unfolding callback register event
  serve now (calls token) s = callback now token s
  serve now (registers token header) s = register now token header s
  serve now (polls token header) s = event now token header s

  -- The store after a sequence of requests with their times, the last one first.
  unfoldable pub serve_all : List (ℕ × Request) → r.Store → r.Store
  unfolding serve
  serve_all [] s = s
  serve_all ((now, q) ∷ qs) s = (serve now q (serve_all qs s)).1
