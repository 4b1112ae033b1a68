-- ===== src/Custom/Evidence.antt =====
-- The evidence that promotes a response to a finding: the second half of
-- app/security_tests/input_validation.py, and app/analysis/authorization.py. `re` searches are
-- `Web.search`, by the source of the pattern.
mod Patterns
pub use api_scanner.Custom.Evidence.Patterns.{
  Pattern, sql_error_patterns, nosql_error_patterns, traversal_markers, path_hint, url_hint,
  command_hint,
}
use api_scanner.Common.{
  inr, ℕ, suc, ◌+◌, ◌-◌, Bool, true, false, not, ◌||◌, ◌&&◌, Option, none, some, List, [], ◌∷◌,
  select, ltb, leb, if◌then◌else◌, is_empty, length, take,
}
use api_scanner.Common.Text.{Text, codes, text_eq, lower, occurs, replace}
use api_scanner.Common.Sorting.{is_in}
use api_scanner.Json.{Json, null, number, str, arr, obj, Items, nil, cons, Fields, end, field, get}
use api_scanner.Scope.{Response, is_redirect}
use api_scanner.Domain.{Confidence}
use api_scanner.Custom.{MutationPoint, Endpoint, Ratio, at_least, below, Fallible, and_then, Web}

abbrev pub is_success : Response → Bool
is_success r = leb 200 r.status && ltb r.status 400

abbrev pub names : List Text → Json
names [] = arr nil
names (t ∷ ts) = elim (names ts) [ arr items ↦ arr (cons (str t) items) | other ↦ other ]

abbrev pub header : Text → List (Text × Text) → Option Text
header name [] = none
header name ((n, v) ∷ fields) = if text_eq n name then some v else header name fields

-- The answer of `authorization_confidence`.
pub record Verdict : Type 0 where
  pub vulnerable : Bool
  pub confidence : Confidence
  pub similarity : Ratio

module _ (w : Web) where
  abbrev ratio_of : Text → Text → Ratio
  ratio_of left right = w.ratio (take 20000 left) (take 20000 right)

  -- The two texts are compared as they are if one of them is no JSON.
  unfoldable pub response_similarity : Text → Text → Ratio
  response_similarity left right = elim (w.load_json left) [
    | none ↦ ratio_of left right
    | some l ↦ elim (w.load_json right) [
      | none ↦ ratio_of left right
      | some r ↦ ratio_of (w.dump_compact l) (w.dump_compact r)
    ]
  ]

  abbrev pub num : ℕ → Json
  num n = number (w.digits n)

  abbrev count_or_null : Option ℕ → Json
  count_or_null none = null
  count_or_null (some n) = num n

  -- {name for name, pattern in PATTERNS if pattern.search(text)}, as a list
  unfoldable pub matched : List Pattern → Text → List Text
  matched [] text = []
  matched ((name, pattern) ∷ patterns) text =
      if w.search pattern text then name ∷ matched patterns text else matched patterns text

  -- The names that the second text matches and the first does not.
  unfoldable pub new_markers : List Pattern → Text → Text → List Text
  unfolding matched
  new_markers patterns baseline mutated =
      select (λ name. not (is_in name (matched patterns baseline))) (matched patterns mutated)

  abbrev marker_evidence : Text → Text → List Text → Response → Response → Json
  marker_evidence technique field_name markers baseline mutated = obj (
      field (codes "technique") (str technique) (
        field field_name (names markers) (
          field (codes "baseline_status") (num baseline.status)
            (field (codes "mutated_status") (num mutated.status) end))))

  abbrev if_any : List Text → Json → Option Json
  if_any [] evidence = none
  if_any (_ ∷ _) evidence = some evidence

  unfoldable pub sql_error_evidence : Response → Response → Option Json
  unfolding new_markers
  sql_error_evidence baseline mutated =
      let markers = new_markers sql_error_patterns (w.text baseline) (w.text mutated) in
      if_any markers
        (marker_evidence (codes "error-based") (codes "database_markers") markers baseline mutated)

  -- The replacements of one payload.
  unfoldable pub without_payload : Text → Text → Text
  without_payload payload text =
      let mark = codes "<SCANNER_INPUT>" in
      replace (w.quote_path payload) mark (
        replace (w.quote payload) mark
          (replace (w.escape payload) mark (replace payload mark text)))

  -- _without_reflection, for the two payloads
  unfoldable pub without_reflection : Text → Text → Text → Text
  unfolding without_payload
  without_reflection first second text = without_payload second (without_payload first text)

  abbrev count_items : Items → ℕ
  count_items nil = 0
  count_items (cons v items) = suc (count_items items)

  -- The first of the keys under which there is a list.
  abbrev list_under : List Text → Fields → Option ℕ
  list_under [] fields = none
  list_under (k ∷ ks) fields = elim (get k fields) [
    | some (arr items) ↦ some (count_items items)
    | _ ↦ list_under ks fields
  ]

  unfoldable pub collection_count : Text → Option ℕ
  collection_count text = elim (w.load_json text) [
    | some (arr items) ↦ some (count_items items)
    | some (obj fields) ↦
        list_under
          (codes "results"
            ∷ codes "items"
            ∷ codes "data"
            ∷ codes "users"
            ∷ codes "records"
            ∷ codes "rows"
            ∷ [])
          fields
    | _ ↦ none
  ]

  abbrev pub exceeds : Option ℕ → Option ℕ → Bool
  exceeds (some a) (some b) = ltb b a
  exceeds _ _ = false

  -- abs(a - b)
  abbrev distance : ℕ → ℕ → ℕ
  distance a b = (a - b) + (b - a)

  -- The evidence of `sql_boolean_evidence`, on the two bodies without the payloads.
  unfoldable pub boolean_evidence : Response → Response → Text → Text → Option Json
  unfolding collection_count
  boolean_evidence true_response false_response true_body false_body =
      let delta = distance (length true_body) (length false_body) in
      let cardinality = exceeds (collection_count true_body) (collection_count false_body) in
      let differential = below 72 (response_similarity true_body false_body) && leb 20 delta in
      if cardinality || differential
      then some (
          obj (
            field (codes "technique") (str (codes "boolean-based differential")) (
              field (codes "true_status") (num true_response.status) (
                field (codes "false_status") (num false_response.status) (
                  field (codes "response_similarity")
                    (number (w.round (response_similarity true_body false_body)))
                    (field (codes "response_length_delta") (num delta) (
                      field (codes "true_collection_items")
                        (count_or_null (collection_count true_body))
                        (field (codes "false_collection_items")
                          (count_or_null (collection_count false_body)) end))))))))
      else none

  unfoldable pub sql_boolean_evidence : Response → Response → Text → Text → Option Json
  unfolding boolean_evidence without_reflection
  sql_boolean_evidence true_response false_response true_payload false_payload =
      if is_success true_response && is_success false_response
      then boolean_evidence true_response false_response
          (without_reflection true_payload false_payload (w.text true_response))
          (without_reflection true_payload false_payload (w.text false_response))
      else none

  unfoldable pub nosql_injection_evidence : Response → Response → Response → Option Json
  unfolding new_markers collection_count
  nosql_injection_evidence baseline operator control =
      let markers = new_markers nosql_error_patterns (w.text baseline) (w.text operator) in
      let more = exceeds (collection_count (w.text operator)) (collection_count (w.text control)) in
      let similarity = response_similarity (w.text operator) (w.text control) in
      if not (is_empty markers)
      then some (
          marker_evidence (codes "NoSQL operator error") (codes "database_markers") markers baseline
            operator)
      else if is_success operator && is_success control && more && below 85 similarity
      then some (
          obj (
            field (codes "technique") (str (codes "NoSQL operator differential")) (
              field (codes "operator_collection_items")
                (count_or_null (collection_count (w.text operator)))
                (field (codes "control_collection_items")
                  (count_or_null (collection_count (w.text control)))
                  (field (codes "response_similarity") (number (w.round similarity)) end)))))
      else none

  unfoldable pub path_traversal_evidence : Response → Response → Option Json
  unfolding new_markers
  path_traversal_evidence baseline mutated =
      let markers = new_markers traversal_markers (w.text baseline) (w.text mutated) in
      if_any markers (
        marker_evidence (codes "local-file-read marker") (codes "matched_markers") markers baseline
          mutated)

  abbrev content_type : Response → Text
  content_type r = elim (header (codes "content-type") r.headers) [ none ↦ [] | some t ↦ lower t ]

  unfoldable pub reflected_xss_evidence : Text → Response → Option Json
  reflected_xss_evidence payload r =
      if occurs payload (w.text r)
        && (occurs (codes "text/html") (content_type r)
            || occurs (codes "application/xhtml+xml") (content_type r))
      then some (
          obj (
            field (codes "technique") (str (codes "unencoded active-content reflection")) (
              field (codes "content_type") (str (content_type r))
                (field (codes "status_code") (num r.status) end))))
      else none

  abbrev text_or_null : Option Text → Json
  text_or_null none = null
  text_or_null (some t) = str t

  abbrev same_host : Option Text → Option Text → Bool
  same_host none none = true
  same_host (some a) (some b) = text_eq a b
  same_host _ _ = false

  abbrev redirect_evidence : Response → Option Text → Option Text → Option Json
  redirect_evidence r expected destination =
      if same_host destination expected
      then some (
          obj (
            field (codes "technique") (str (codes "external Location header control")) (
              field (codes "status_code") (num r.status)
                (field (codes "location_host") (text_or_null destination) end))))
      else none

  unfoldable pub open_redirect_evidence : Text → Response → Fallible (Option Json)
  open_redirect_evidence callback_url r = elim r.location [
    | none ↦ inr none
    | some location ↦
        if is_redirect r.status && not (is_empty location)
        then and_then (w.hostname callback_url) (λ expected.
          and_then (w.hostname location)
            (λ destination. inr (redirect_evidence r expected destination)))
        else inr none
  ]

  unfoldable pub command_execution_evidence : Text → Text → Response → Option Json
  command_execution_evidence payload marker r =
      if occurs marker (w.text r) && not (occurs payload (w.text r))
      then some (
          obj (
            field (codes "technique") (str (codes "non-destructive output canary")) (
              field (codes "status_code") (num r.status)
                (field (codes "output_marker") (str marker) end))))
      else none

  unfoldable pub point_matches : MutationPoint → Text → Endpoint → Bool
  point_matches point pattern e = w.search pattern point.name || w.search pattern e.path

  -- `walk` of contains_identifier
  unfoldable mutual
    pub holds_identifier : Text → Json → Bool
    holds_identifier id (obj fields) = field_holds_identifier id fields
    holds_identifier id (arr items) = item_holds_identifier id items
    holds_identifier id (str t) = text_eq t id
    holds_identifier id v = text_eq (w.str_of v) id

    pub item_holds_identifier : Text → Items → Bool
    item_holds_identifier id nil = false
    item_holds_identifier id (cons v items) =
        holds_identifier id v || item_holds_identifier id items

    pub field_holds_identifier : Text → Fields → Bool
    field_holds_identifier id end = false
    field_holds_identifier id (field k v fields) =
        holds_identifier id v || field_holds_identifier id fields

  unfoldable pub contains_identifier : Text → Text → Bool
  unfolding holds_identifier
  contains_identifier body id = elim (w.load_json body) [
    | none ↦ occurs id body
    | some v ↦ holds_identifier id v
  ]

  unfoldable pub authorization_confidence : Response → Response → Text → Verdict
  unfolding contains_identifier
  authorization_confidence owner cross foreign_id =
      let similarity = response_similarity (w.text owner) (w.text cross) in
      let vulnerable =
        ltb owner.status 300
        && ltb cross.status 300
        && contains_identifier (w.text cross) foreign_id
        && at_least 55 similarity in
      record {
        vulnerable = vulnerable;
        confidence =
            if vulnerable && at_least 85 similarity then Confidence.high else Confidence.medium;
        similarity = similarity;
      }
