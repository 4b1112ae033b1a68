-- ===== src/Custom/Probe.antt =====
-- One payload at one point, and the callback collector: `_mutate`, `_point_request`, `_oast_hit`
-- and `_register_oast` of app/engines/custom.py.
use api_scanner.Common.{
  ℕ, zero, suc, Bool, true, false, not, ◌&&◌, Option, none, some, List, [], ◌∷◌, ◌++◌,
  if◌then◌else◌, is_empty,
}
use api_scanner.Common.Text.{Text, codes, rstrip}
use api_scanner.Json.{Json, str, obj, Fields, end, field}
use api_scanner.Scope.{Response}
use api_scanner.Domain.{FindingDraft}
use api_scanner.Custom.{Endpoint, Context, MutationPoint, PreparedRequest, Fallible, Web}
use api_scanner.Custom.Session.{Exec, ◌>>=◌, pure, raising, look, send_prepared}
use api_scanner.Custom.Schema.{put_field}
use api_scanner.Custom.Requests.{build_prepared_request}
use api_scanner.Custom.Checks.{Issue, redacted_headers, finding}

-- What the tests of one point gave: the requests they took, the finding, and whether the callback
-- collector failed.
pub record Outcome : Type 0 where
  pub requests : ℕ
  pub found : List FindingDraft
  pub collector_error : Bool

abbrev pub outcome : ℕ → List FindingDraft → Outcome
outcome requests found = record { requests = requests; found = found; collector_error = false }

-- A payload, and the evidence that the response to it gives.
abbrev pub Attempt : Type 0
Attempt = Text × (Response → Fallible (Option Json))

abbrev fields_of_evidence : Json → Fields
fields_of_evidence (obj fields) = fields
fields_of_evidence _ = end

abbrev is_set : Option Text → Bool
is_set none = false
is_set (some t) = not (is_empty t)

abbrev pub or_empty : Option Text → Text
or_empty none = []
or_empty (some t) = t

abbrev pub configured : Web → Bool
configured w =
    is_set w.callback_base_url && (is_set w.poll_base_url && not (is_empty w.oast_api_key))

abbrev pub has_collector : Web → Bool
has_collector w = is_set w.poll_base_url && not (is_empty w.oast_api_key)

-- The three tries of `_oast_hit`.
unfoldable pub poll_hit : Web → ℕ → Text → Exec (Option Bool)
poll_hit w zero url = pure (some false)
poll_hit w (suc left) url = look >>= λ now. elim (w.poll now url) [
  | none ↦ pure none
  | some hit ↦ if hit then pure (some true) else poll_hit w left url
]

abbrev pub event_url : Web → Text → Text
event_url w token = rstrip b'/' (or_empty w.poll_base_url) ++ (codes "/events/" ++ token)

-- `none` if the collector could not be queried.
unfoldable pub oast_hit : Web → Text → Exec (Option Bool)
unfolding poll_hit
oast_hit w token = if has_collector w then poll_hit w 3 (event_url w token) else pure none

unfoldable pub register_oast : Web → Text → Exec Bool
register_oast w token =
    if has_collector w
    then (look >>= λ now. elim (w.register now (event_url w token ++ codes "/register")) [
      | none ↦ pure false
      | some registered ↦ pure registered
    ])
    else pure false

module _ (w : Web) (context : Context) (e : Endpoint) where
  -- _point_request
  unfoldable pub point_request : MutationPoint → PreparedRequest → Json → Json
  point_request p prepared payload = obj (
      field (codes "method") (str (codes "MUTATED_OPERATION")) (
        field (codes "url") (str prepared.url) (
          field (codes "parameter") (str p.name) (
            field (codes "location") (str p.location)
              (field (codes "payload") payload (field (codes "headers") redacted_headers end))))))

  -- _mutate; the request that it prepares comes with the answer.
  unfoldable pub mutate : MutationPoint → Json → Exec (PreparedRequest × Response)
  mutate p payload = raising (build_prepared_request w e (some (p.key, payload))) >>= λ prepared.
      (send_prepared w context context.auth e.method prepared >>= λ r. pure (prepared, r))

  -- The finding of a check at a point.
  unfoldable pub point_finding : Issue → MutationPoint → Response → Json → Json → FindingDraft
  point_finding i p r evidence request = finding w context e (record i {
    parameter = some p.name;
    response = some r;
    detail =
        obj (put_field (codes "input_location") (str p.location) (fields_of_evidence evidence));
    evidence_request = some request;
  })

  -- One payload after the other, up to the first with evidence; `sent` requests went before.
  unfoldable pub probe : Issue → MutationPoint → ℕ → List Attempt → Exec Outcome
  unfolding mutate point_finding point_request
  probe i p sent [] = pure (outcome sent [])
  probe i p sent ((payload, judge) ∷ attempts) = mutate p (str payload) >>= λ m.
      (raising (judge m.1) >>= λ found. elim found [
        | none ↦ probe i p (suc sent) attempts
        | some evidence ↦ pure (
            outcome (suc sent)
              (point_finding i p m.1 evidence (point_request p m.0 (str payload)) ∷ []))
      ])
