-- ===== src/Ingestion.antt =====
-- What the scanner knows of an API before it tests it: app/ingestion/openapi.py and
-- app/ingestion/discovery.py. This file has the inventory, its exceptions and `Reader`, which stands
-- for `json`, `yaml`, `hashlib`, `urllib` and `str`. The keys of a document are texts.
pub mod References
pub mod Servers
pub mod Operations
pub mod Document
pub mod Discovery
pub mod Postman
pub mod Sources
mod Distinct
mod Found
mod Discovered
mod Endpoints
mod Inventory
mod Resolved
mod Posted
mod Obtained
mod Tests
use api_scanner.Common.{
  ℕ, Bool, true, false, Option, none, some, List, [], ◌∷◌, ◌++◌, map, ◌≡◌, refl, All, All-append,
}
use mathlib.Core.List.{map-append}
use api_scanner.Common.Text.{Text}
use api_scanner.Json.{Json, arr, obj, str, Items, nil, cons, Fields, end, field}
use api_scanner.Domain.{Confidence}

-- ParameterDefinition of app/domain.py; `example` is null if there is none.
pub record ParameterDefinition : Type 0 where
  pub name : Text
  pub location : Text
  pub required : Bool
  pub schema : Json
  pub example : Json

-- EndpointDefinition of app/domain.py
pub record EndpointDefinition : Type 0 where
  pub endpoint_id : Text
  pub base_url : Text
  pub path : Text
  pub method : Text
  pub operation_id : Option Text
  pub tags : List Text
  pub parameters : List ParameterDefinition
  pub request_body : Option Json
  pub responses : Fields
  pub content_types : List Text
  pub auth_required : Bool
  pub source : Text
  pub confidence : Confidence

pub record ParsedInventory : Type 0 where
  pub version : Text
  pub base_urls : List Text
  pub endpoints : List EndpointDefinition
  pub document : Fields
  pub sha256 : Text

-- `none` is the exception of a decoder.
pub record Reader : Type 0 where
  pub encode : Text → List ℕ
  pub decode : List ℕ → Option Text
  pub load_json : Text → Option Json
  pub load_yaml : Text → Option Json
  pub dump : Fields → List ℕ
  pub dump_sorted : Fields → List ℕ
  pub sha256 : List ℕ → Text
  pub digest : Text → Text
  pub urljoin : Text → Text → Text
  pub str_of : Json → Text

-- A value, an IngestionError, or another exception: a UnicodeDecodeError, the TypeError or
-- AttributeError of a value of the wrong shape, a ValidationError.
pub data Parsed (A : Type 0) : Type 0 where
  ok : A → Parsed A
  invalid : Text → Parsed A
  crashed : Parsed A

infixl 5 ◌>>=◌
abbrev pub ◌>>=◌ : {A B : Type 0} → Parsed A → (A → Parsed B) → Parsed B
ok a >>= f = f a
invalid m >>= f = invalid m
crashed >>= f = crashed

abbrev pub or_crash : {A : Type 0} → Option A → Parsed A
or_crash none = crashed
or_crash (some a) = ok a

abbrev characters : Text → List Json
characters [] = []
characters (c ∷ s) = str (c ∷ []) ∷ characters s

abbrev pub items_of : Items → List Json
items_of nil = []
items_of (cons v items) = v ∷ items_of items

abbrev pub keys_of : Fields → List Text
keys_of end = []
keys_of (field k v fields) = k ∷ keys_of fields

-- [*value]; `none` is the TypeError of a value that is no iterable.
abbrev pub iterate : Json → Option (List Json)
iterate (arr items) = some (items_of items)
iterate (obj fields) = some (map str (keys_of fields))
iterate (str t) = some (characters t)
iterate _ = none

-- for key, value in fields.items(): ..., with the results in one list
abbrev pub each_field : {A : Type 0} → (Text → Json → Parsed (List A)) → Fields → Parsed (List A)
each_field f end = ok []
each_field f (field k v fields) =
    f k v >>= λ first. (each_field f fields >>= λ rest. ok (first ++ rest))

-- What a successful chain tells of its first step.
pub >>=-ok_inv :
    {A B : Type 0} (m : Parsed A) (f : A → Parsed B) {b : B}
    → (m >>= f) ≡ ok b
    → (a : A) × (m ≡ ok a) × (f a ≡ ok b)
>>=-ok_inv (ok a) f h = (a, refl, h)
>>=-ok_inv (invalid m) f h = cc
>>=-ok_inv crashed f h = cc

-- What the turns of a loop give, in one list.
abbrev pub flat_fields : {B : Type 0} → (Text → Json → List B) → Fields → List B
flat_fields h end = []
flat_fields h (field k v fields) = h k v ++ flat_fields h fields

module _ {A : Type 0} (f : Text → Json → Parsed (List A)) where
  -- What each turn of a loop gives for its entry, the loop gives for all of them.
  pub each_field-map :
      {B : Type 0} (g : A → B) (h : Text → Json → List B)
      → ((k : Text) (v : Json) (xs : List A) → f k v ≡ ok xs → map g xs ≡ h k v)
      → (fields : Fields) (xs : List A) → each_field f fields ≡ ok xs
      → map g xs ≡ flat_fields h fields
  each_field-map g h turn end xs e = let same : [] ≡ xs = cc in rw (← same) refl
  each_field-map g h turn (field k v fields) xs e =
      let (first, d, rest_eq) = >>=-ok_inv (f k v) _ e in
      let (rest, d', whole) = >>=-ok_inv (each_field f fields) _ rest_eq in
      let same : first ++ rest ≡ xs = cc in
      rw (← same)
        (rw map-append (rw (turn k v first d) (rw (each_field-map g h turn fields rest d') refl)))

  pub each_field-All :
      (P : A → Type 0)
      → ((k : Text) (v : Json) (xs : List A) → f k v ≡ ok xs → All P xs)
      → (fields : Fields) (xs : List A) → each_field f fields ≡ ok xs
      → All P xs
  each_field-All P turn end xs e = let same : [] ≡ xs = cc in rw (← same) tt
  each_field-All P turn (field k v fields) xs e =
      let (first, d, rest_eq) = >>=-ok_inv (f k v) _ e in
      let (rest, d', whole) = >>=-ok_inv (each_field f fields) _ rest_eq in
      let same : first ++ rest ≡ xs = cc in
      rw (← same)
        (All-append P first rest (turn k v first d) (each_field-All P turn fields rest d'))
