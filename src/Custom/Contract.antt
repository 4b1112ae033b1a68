-- ===== src/Custom/Contract.antt =====
-- What the orchestrator needs of an engine that sends baseline requests, and that the custom engine
-- delivers it: `_apply_endpoint_baselines` of app/services/orchestrator.py reads the last baseline
-- record of each endpoint.
use api_scanner.Common.{ℕ, ◌≤◌, ◌≡◌, some, List, Memᴰ, All}
use mathlib.Core.List.Memᴰ
use api_scanner.Common.Text.{Text}
use api_scanner.Coverage.{Check}
use api_scanner.Orchestrator.Engines.{EngineResult, EngineOutcome, returned}
use api_scanner.Orchestrator.Baselines.{baseline_of}
use api_scanner.Custom.{Endpoint}

-- The contract: a baseline record for each of the endpoints, and no more requests than allowed.
pub record Delivers (es : List Endpoint) (maximum : ℕ) (r : EngineResult) : Type 0 where
  pub rows : List Check
  pub reported : r.checks ≡ some rows
  pub baselines : All (λ e. (v : Check) × (baseline_of e.endpoint_id rows ≡ some v)) es
  pub counted : r.request_count ≤ maximum

abbrev count_of : EngineOutcome → ℕ
count_of (returned r) = r.request_count
count_of _ = 0
