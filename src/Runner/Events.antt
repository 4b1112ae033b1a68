-- ===== src/Runner/Events.antt =====
-- What the runner reads from a tool: `_read_json_events` and `_wuppie_events` of
-- engine_runner/main.py.
use api_scanner.Common.{
  ℕ, ◌&&◌, not, Option, none, some, List, [], ◌∷◌, ◌++◌, ltb, ◌==◌, take, length, if◌then◌else◌,
}
use api_scanner.Common.Text.{Text, codes, occurs, lower, upper}
use api_scanner.Json.{Json, null, number, str, arr, obj, Items, nil, cons, Fields, end, field}
use api_scanner.Custom.Schema.{is_dict, is_truthy}
use api_scanner.Runner.{World, Row}

-- [item for item in value if isinstance(item, dict)]
abbrev pub dicts : Items → List Json
dicts nil = []
dicts (cons v items) = let rest = dicts items in if is_dict v then v ∷ rest else rest

abbrev line_event : Option Json → List Json
line_event (some (obj fields)) = obj fields ∷ []
line_event _ = []

-- The loop over the lines of a text that is no JSON value.
abbrev line_events : World → List Text → List Json
line_events w [] = []
line_events w (line ∷ lines) = line_event (w.load_json line) ++ line_events w lines

abbrev text_or : Option Text → Text → Text
text_or none d = d
text_or (some t) d = t

-- _read_json_events, given what the output file holds.
unfoldable pub read_json_events : World → Option Text → Text → List Json
read_json_events w written stdout =
    let text = text_or written stdout in
    elim (w.load_json text) [
      | some (arr items) ↦ dicts items
      | some (obj fields) ↦ obj fields ∷ []
      | _ ↦ line_events w (w.split_lines text)
    ]

abbrev status_code : Option ℕ → ℕ
status_code none = 0
status_code (some s) = s

-- str(url or path)
abbrev row_endpoint : World → Row → Text
row_endpoint w row = w.str_of (if is_truthy row.url then row.url else row.path)

abbrev entry : Text → Text → Fields → Fields
entry key value = field key (str value)

abbrev transport_error : World → Row → Json
transport_error w row = obj (
    entry (codes "kind") (codes "transport_error") (
      entry (codes "title") (codes "REST API transport error") (
        entry (codes "category") (codes "transport-error") (
          entry (codes "description")
            (codes "The isolated proxy could not complete the target request.")
            (entry (codes "severity") (codes "INFO") (
              entry (codes "confidence") (codes "HIGH") (
                entry (codes "endpoint") (row_endpoint w row) (
                  entry (codes "method") (upper (w.str_of row.method))
                    (field (codes "status") (number (w.digits 599)) end)))))))))

-- The text of a row's event.
abbrev row_description : World → Row → Text
row_description w row =
    if status_code row.status == 0
    then codes "WuppieFuzz observed a transport error: " ++ take 500 (w.str_of row.error)
    else codes "WuppieFuzz received HTTP " ++ (w.digits (status_code row.status) ++ codes ".")

abbrev anomaly : World → Row → Json
anomaly w row =
    let failed = not (ltb (status_code row.status) 500) in
    obj (
      entry (codes "kind") (if failed then codes "server_error" else codes "crash") (
        entry (codes "title") (codes "REST API fuzzing anomaly") (
          entry (codes "category")
            (if failed then codes "server-error" else codes "transport-error")
            (entry (codes "description") (row_description w row) (
              entry (codes "severity") (codes "MEDIUM") (
                entry (codes "confidence") (if failed then codes "HIGH" else codes "LOW") (
                  entry (codes "endpoint") (row_endpoint w row) (
                    entry (codes "method") (upper (w.str_of row.method)) (
                      field (codes "status")
                        (if status_code row.status == 0
                          then null
                          else number (w.digits (status_code row.status)))
                        end)))))))))

-- One turn of the loop over the rows of the report.
unfoldable pub row_events : World → Row → List Json
row_events w row =
    if ltb (status_code row.status) 500 && not (is_truthy row.error)
    then []
    else if status_code row.status == 599
    then transport_error w row ∷ []
    else anomaly w row ∷ []

abbrev all_row_events : World → List Row → List Json
all_row_events w [] = []
all_row_events w (row ∷ rows) = row_events w row ++ all_row_events w rows

abbrev log_event : Text → Json
log_event line = obj (
    entry (codes "kind")
      (if occurs (codes "server error") (lower line) then codes "server_error" else codes "crash")
      (entry (codes "title") (codes "REST API fuzzing anomaly") (
        entry (codes "description") (take 1000 line) (
          entry (codes "severity") (codes "MEDIUM")
            (entry (codes "confidence") (codes "MEDIUM") end)))))

abbrev log_events : World → List Text → List Json
log_events w [] = []
log_events w (line ∷ lines) =
    let rest = log_events w lines in if w.is_anomaly line then log_event line ∷ rest else rest

abbrev reported : Option (List Row) → List Row
reported none = []
reported (some rows) = rows

-- _wuppie_events, given the rows of the report if there is one.
unfoldable pub wuppie_events : World → Option (List Row) → Text → Text → List Json × ℕ
unfolding row_events
wuppie_events w report stdout stderr = (
  all_row_events w (reported report)
      ++ log_events w (w.split_lines (stdout ++ (codes "\n" ++ stderr))),
  length (reported report),
)
