-- ===== src/Control/Tests.antt =====
-- Runs of the control of a scan.
use api_scanner.Common.{◌≡◌, refl, some, [], ◌∷◌}
use api_scanner.Orchestrator.Run.{run}
use api_scanner.Orchestrator.Tests.{job, db}
use api_scanner.Control.{cancel, pause, resume, controls, run-controls}

run-controls_example :
    run job (some (record db { scan = controls (resume ∷ cancel ∷ pause ∷ []) db.scan }))
    ≡ some (record db { scan = controls (resume ∷ cancel ∷ pause ∷ []) db.scan })
run-controls_example = run-controls job db (resume ∷ cancel ∷ pause ∷ []) refl refl
