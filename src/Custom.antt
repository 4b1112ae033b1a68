-- ===== src/Custom.antt =====
-- The custom engine, app/engines/custom.py with app/security_tests/input_validation.py and
-- app/security/auth.py. This file has what a scan tells the engine and what the engine calls: the
-- record Web stands for the network, the clock, the callback collector, `re`, `difflib`, `json`,
-- `html` and `urllib`.
pub mod Session
pub mod Schema
pub mod Points
pub mod Requests
pub mod Evidence
pub mod Checks
pub mod Passive
pub mod Payloads
pub mod Probe
pub mod Active
pub mod Authorization
pub mod Testing
pub mod Execute
mod Logic
mod Limits
mod Laws
mod Outcomes
mod Differential
mod Contract
mod Bodies
mod Exhausted
mod Answered
mod Reports
mod PassiveReports
mod ActiveReports
mod TestingReports
mod AuthorizationReports
mod Tests
use api_scanner.Common.{
  ℕ, ◌*◌, Bool, true, false, Option, none, some, List, [], ◌∷◌, ltb, leb, if◌then◌else◌, ◌⊎◌, inl,
  inr,
}
use api_scanner.Common.Text.{Text, codes, text_eq}
use api_scanner.Json.{Json, Fields}
use api_scanner.Scope.{Net, Response, ScopeError}
use api_scanner.Budget.{Reading}
use api_scanner.Orchestrator.Policy.{Profile, ScanLimits}

-- ParameterDefinition; `example` is null if there is none.
pub record Parameter : Type 0 where
  pub name : Text
  pub location : Text
  pub schema : Json
  pub example : Json

-- EndpointDefinition, as far as the engine reads it.
pub record Endpoint : Type 0 where
  pub endpoint_id : Text
  pub base_url : Text
  pub path : Text
  pub method : Text
  pub tags : List Text
  pub parameters : List Parameter
  pub request_body : Json
  pub auth_required : Bool

-- The dict of credentials, by its `type`.
pub data Auth : Type 0 where
  no_auth : Auth
  bearer : Text → Auth
  basic api_key_query api_key_header : Text → Text → Auth
  unsupported : Text → Auth

pub record Identity : Type 0 where
  pub name : Text
  pub is_admin : Bool
  pub resource_ids : List Text
  pub auth : Auth

-- ScanContext
pub record Context : Type 0 where
  pub allowed_hosts : List Text
  pub profile : Profile
  pub limits : ScanLimits
  pub endpoints : List Endpoint
  pub auth : Auth
  pub identities : List Identity

-- A key or an index on the way into a body.
pub data Part : Type 0 where
  key : Text → Part
  index : ℕ → Part

pub record MutationPoint : Type 0 where
  pub key : Text
  pub name : Text
  pub location : Text
  pub baseline : Json
  pub schema_type : Text
  pub body_path : List Part
  pub media_type : Option Text

pub record PreparedRequest : Type 0 where
  pub url : Text
  pub params : List (Text × Text)
  pub headers : List (Text × Text)
  pub cookies : List (Text × Text)
  pub json_body : Option Json
  pub data_body : Option Json
  pub media_type : Option Text

-- What goes to `httpx` beside the URL.
pub record Request : Type 0 where
  pub method : Text
  pub params : List (Text × Text)
  pub headers : List (Text × Text)
  pub cookies : List (Text × Text)
  pub json : Option Json
  pub data_body : Option Json

-- An exception: the name of its type, and its text. Those of a request are an httpx.HTTPError, a
-- ValueError or a RuntimeError.
pub record Failure : Type 0 where
  pub kind : Text
  pub detail : Text

-- The ratio of two lengths, from 0 to 1.
pub record Ratio : Type 0 where
  pub num : ℕ
  pub den : ℕ

-- similarity >= h / 100, similarity > h / 100
abbrev pub at_least : ℕ → Ratio → Bool
at_least h r = leb (h * r.den) (100 * r.num)

abbrev pub above : ℕ → Ratio → Bool
above h r = ltb (h * r.den) (100 * r.num)

abbrev pub below : ℕ → Ratio → Bool
below h r = ltb (100 * r.num) (h * r.den)

-- A value, or the exception that the source raises in its place.
abbrev pub Fallible : Type 0 → Type 0
Fallible A = Failure ⊎ A

abbrev pub and_then : {A B : Type 0} → Fallible A → (A → Fallible B) → Fallible B
and_then (inl f) k = inl f
and_then (inr a) k = k a

-- `integer` and `float` are the conversions int() and float(), `items_failure` is the AttributeError
-- of `items()` on what is no dict, and `pairs` what `dict.update` reads of a value that is no dict;
-- `hostname` is urlsplit(url).hostname.
pub record Web : Type 0 where
  pub net : ℕ → Request → Net
  pub reading : ℕ → Reading
  pub interval : ℕ → ℕ
  pub max_response_size : ℕ
  pub allow_private : Bool
  pub describe : ScopeError → Failure
  pub register : ℕ → Text → Option Bool
  pub poll : ℕ → Text → Option Bool
  pub token : ℕ → Text
  pub callback_base_url : Option Text
  pub poll_base_url : Option Text
  pub oast_api_key : Text
  pub text : Response → Text
  pub ratio : Text → Text → Ratio
  pub search : Text → Text → Bool
  pub load_json : Text → Option Json
  pub dump_json : Json → Text
  pub dump_compact : Json → Text
  pub mask : Text → Text
  pub str_of : Json → Text
  pub integer : Json → Fallible Json
  pub float : Json → Fallible Json
  pub items_failure : Json → Failure
  pub pairs : Json → Fallible Fields
  pub digits : ℕ → Text
  pub round : Ratio → Text
  pub escape : Text → Text
  pub quote : Text → Text
  pub quote_path : Text → Text
  pub base64 : Text → Text
  pub parse_qsl : Text → List (Text × Text)
  pub url_join : Text → Text → Text
  pub hostname : Text → Fallible (Option Text)
  pub urlencode : List (Text × Text) → Text
