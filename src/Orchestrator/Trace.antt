-- ===== src/Orchestrator/Trace.antt =====
-- Each part of a run, with the stage and the progress before and after it.
use api_scanner.Common.{
  ℕ, suc, ◌+◌, ◌*◌, ◌/◌, ◌≤◌, ◌<◌, max, ◌≡◌, List, [], ◌∷◌, ◌++◌, arith, length,
}
use native.Mathlib.Nat.{div-le_of_le-mul, le-div_iff_mul-le, div-mul-le_self}
use api_scanner.Common.Text.{Text, codes}
use api_scanner.Domain.{FindingDraft}
use api_scanner.Orchestrator.{queued, initializing, discovering, scanning, correlating, stage, pure}
use api_scanner.Orchestrator.Checkpoint.{World}
use api_scanner.Orchestrator.Engines.{
  Engine, Gathered, outcome_result, gather, engine_progress, run_engine, run_engines, engine_text,
}
use api_scanner.Orchestrator.Run.{Job, initialise, discover, engines, scan_engines, correlate}
use api_scanner.Orchestrator.Triple.{Triple, >>=-Triple, >>=-IsQuiet, pure-IsQuiet}
use api_scanner.Orchestrator.Quiet.{
  look-IsQuiet, lift-IsQuiet, checkpoint-IsQuiet, persist_engine-IsQuiet, check_baselines-IsQuiet,
  admit-IsQuiet, require_target-IsQuiet, add_endpoints-IsQuiet, add_specification-IsQuiet,
  add_findings-IsQuiet, mark_again-IsQuiet,
}
use api_scanner.Orchestrator.Stages.{
  started, validated, inventoried, engine_done, all_done, At, Stopped, quiet-At, stage-At, At-raise,
}

-- The progress before the engine with this index.
abbrev pub progress_before : ℕ → ℕ → ℕ
progress_before index total = 30 + 40 * index / max total 1

div_mono : (a b c : ℕ) → 0 < c → a ≤ b → a / c ≤ b / c
div_mono a b c h k = (le-div_iff_mul-le h).1 (omega (arith, div-mul-le_self a c))

progress_rises : (index total : ℕ) → progress_before index total ≤ engine_progress index total
unfolding engine_progress
progress_rises index total =
    omega
      (arith, div_mono (40 * index) (40 * (index + 1)) (max total 1) (omega arith) (omega arith))

next_progress : (index total : ℕ) → engine_progress index total ≤ progress_before (suc index) total
unfolding engine_progress
next_progress index total =
    omega (
      arith,
      div_mono (40 * (index + 1)) (40 * suc index) (max total 1) (omega arith) (omega arith),
    )

progress_bounded : (index total : ℕ) → index ≤ total → progress_before index total ≤ 70
progress_bounded index total h =
    omega (arith, div-le_of_le-mul (max total 1) {m = 40 * index} {n = 40} (omega arith))

module _ (w : World) (percent : ℕ → ℕ → ℕ) (identity_count deadline total : ℕ)
    (old : List Text) where
  run_engine-At :
      (index : ℕ) (e : Engine) (g : Gathered)
      → index < total
      → Triple
          (At scanning (progress_before index total) old)
          (run_engine w percent identity_count deadline total index e g)
          (λ _. At scanning (engine_progress index total) old)
          (Stopped old)
  unfolding run_engine
  run_engine-At index e g h =
      let limit : ℕ = progress_before index total in
      let low : limit ≤ 90 = omega (arith, progress_bounded index total (omega arith)) in
      >>=-Triple _ _ (quiet-At _ limit (checkpoint-IsQuiet w deadline) low) (λ _.
        >>=-Triple _ _ (quiet-At _ limit look-IsQuiet low) (λ now.
          let r = outcome_result e.name (e.run now) in
          >>=-Triple _ _ (quiet-At _ limit (persist_engine-IsQuiet w.mask r) low) (λ _.
            >>=-Triple _ _
              (quiet-At _ limit
                (check_baselines-IsQuiet w percent identity_count deadline e.name r
                  (gather e.name r g).partial_failures)
                low)
              (λ _.
                >>=-Triple
                  (stage scanning (engine_progress index total)
                    (codes "finished " ++ engine_text e.name))
                  (λ _. pure (gather e.name r g))
                  (stage-At limit (engine_progress index total)
                    (codes "finished " ++ engine_text e.name) engine_done
                    (progress_rises index total))
                  (λ _. record { at = λ db a. a })))))

  run_engines-At :
      (index : ℕ) (es : List Engine) (g : Gathered)
      → index + length es ≡ total
      → Triple
          (At scanning (progress_before index total) old)
          (run_engines w percent identity_count deadline total index es g)
          (λ _. At scanning 70 old)
          (Stopped old)
  unfolding run_engines
  run_engines-At index [] g h = record {
    at = λ db a. At-raise a (progress_bounded index total (omega arith));
  }
  run_engines-At index (e ∷ es) g h = >>=-Triple _ _ (run_engine-At index e g (omega arith)) (λ g'.
      record {
        at = λ db a.
            (run_engines-At (suc index) es g' (omega arith)).at db
              (At-raise a (next_progress index total));
      })

module _ (job : Job) (old : List Text) where
  pub initialise-At :
      (deadline : ℕ)
      → Triple
          (At queued 0 old)
          (initialise job deadline)
          (λ _. At initializing 5 old)
          (Stopped old)
  unfolding initialise
  initialise-At deadline =
      >>=-Triple _ _ (stage-At 0 5 (codes "validating target") started (omega arith)) (λ _.
        >>=-Triple _ _ (quiet-At _ 5 (require_target-IsQuiet job) (omega arith)) (λ url.
          >>=-Triple _ _ (quiet-At _ 5 (admit-IsQuiet job url) (omega arith))
            (λ _. quiet-At _ 5 (checkpoint-IsQuiet job.world deadline) (omega arith))))

  pub discover-At :
      (deadline : ℕ)
      → Triple
          (At initializing 5 old)
          (discover job deadline)
          (λ _. At discovering 15 old)
          (Stopped old)
  unfolding discover
  discover-At deadline =
      >>=-Triple _ _ (stage-At 5 15 (codes "building API inventory") validated (omega arith)) (λ _.
        quiet-At _ 15
          (>>=-IsQuiet _ _ look-IsQuiet (λ now.
            >>=-IsQuiet _ _ (lift-IsQuiet (job.inventory now)) (λ i.
              >>=-IsQuiet _ _ (add_endpoints-IsQuiet job i.endpoints) (λ _.
                >>=-IsQuiet _ _ (add_specification-IsQuiet job i) (λ _.
                  >>=-IsQuiet _ _ (checkpoint-IsQuiet job.world deadline) (λ _. pure-IsQuiet i))))))
          (omega arith))

  pub scan_engines-At :
      (deadline : ℕ) (static : List FindingDraft)
      → Triple
          (At discovering 15 old)
          (scan_engines job deadline static)
          (λ _. At scanning 70 old)
          (Stopped old)
  unfolding scan_engines
  scan_engines-At deadline static =
      >>=-Triple _ _ (quiet-At _ 15 (lift-IsQuiet job.credentials) (omega arith)) (λ _.
        >>=-Triple _ _ (stage-At 15 30 (codes "running scanner engines") inventoried (omega arith))
          (λ _. record {
            at = λ db a.
                (run_engines-At job.world job.percent job.identity_count deadline
                    (length (engines job)) old 0 (engines job) _ (omega arith)).at
                  db (At-raise a (omega arith));
          }))

  pub correlate-At :
      (deadline : ℕ) (raw : List FindingDraft)
      → Triple
          (At scanning 70 old)
          (correlate job deadline raw)
          (λ _. At correlating 75 old)
          (Stopped old)
  unfolding correlate
  correlate-At deadline raw =
      >>=-Triple _ _
        (stage-At 70 75 (codes "correlating and deduplicating findings") all_done (omega arith))
        (λ _.
          quiet-At _ 75
            (>>=-IsQuiet _ _ (add_findings-IsQuiet job raw) (λ _.
              >>=-IsQuiet _ _ (mark_again-IsQuiet job)
                (λ _. checkpoint-IsQuiet job.world deadline)))
            (omega arith))
