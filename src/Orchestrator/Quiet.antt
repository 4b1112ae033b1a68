-- ===== src/Orchestrator/Quiet.antt =====
-- The actions of a run between its stages, which write no line to the log and store no report.
use api_scanner.Common.{
  ℕ, zero, suc, ◌-◌, ◌&&◌, ◌≡◌, refl, Bool, true, false, not, ◌==◌, List, [], ◌∷◌, Option-cases,
  Bool-cases, inl, inr, if◌then◌else◌, leb, is_empty, take, ◌∙◌,
}
use api_scanner.Common.Text.{Text}
use api_scanner.Domain.{FindingDraft}
use api_scanner.Coverage.{Check}
use api_scanner.Scope
use api_scanner.Scope.{Target}
use api_scanner.Orchestrator.{Db, Result, Exec, pure, raise, look, target_unreachable, raised}
use api_scanner.Orchestrator.Policy.{EngineName, is_custom}
use api_scanner.Orchestrator.Checkpoint.{
  World, refresh, pause, resume, is_paused, next_round, checkpoint_loop, checkpoint,
}
use api_scanner.Orchestrator.Baselines.{Applied}
use api_scanner.Orchestrator.Engines.{
  EngineResult, persist_engine, apply_baselines, check_baselines, require_reachable,
  note_unreachable, checks_or_none,
}
use api_scanner.Orchestrator.Run.{
  Job, Listed, Inventory, lift, admit, require_target, add_endpoint, add_endpoints,
  add_specification, add_findings, mark_again,
}
use api_scanner.Orchestrator.Triple.{IsQuiet, >>=-IsQuiet, pure-IsQuiet, raise-IsQuiet}

pub if-IsQuiet :
    {A : Type 0} (b : Bool) (m n : Exec A) → IsQuiet m → IsQuiet n → IsQuiet (if b then m else n)
if-IsQuiet true m n p q = p
if-IsQuiet false m n p q = q

pub look-IsQuiet : IsQuiet look
look-IsQuiet = record { log = λ db. refl; reports = λ db. refl }

pub lift-IsQuiet : {A : Type 0} (r : Result A) → IsQuiet (lift r)
lift-IsQuiet r = record { log = λ db. refl; reports = λ db. refl }

-- A round of a checkpoint changes the scan's row and the clock only.
abbrev SameRows : Db → Db → Type 0
SameRows db after = (after.log ≡ db.log) × (after.reports ≡ db.reports)

resume-SameRows : (db : Db) → SameRows db (resume db)
unfolding resume
resume-SameRows db = elim (Bool-cases (is_paused db.scan.status)) [
  | inl e ↦ rw e (refl, refl)
  | inr e ↦ rw e (refl, refl)
]

next_round-SameRows :
    (cancel late held : Bool) (db seen : Db) (wait : Result (Unit {0}) × Db)
    → SameRows db seen
    → SameRows db wait.1
    → SameRows db (next_round cancel late held seen wait).1
unfolding next_round
next_round-SameRows true late held db seen wait s w = s
next_round-SameRows false true held db seen wait s w = s
next_round-SameRows false false false db seen wait s w =
    ((resume-SameRows seen).0 ∙ s.0, (resume-SameRows seen).1 ∙ s.1)
next_round-SameRows false false true db seen wait s w = w

checkpoint_loop-SameRows :
    (w : World) (deadline fuel : ℕ) (db : Db) → SameRows db (checkpoint_loop w deadline fuel db).1
unfolding checkpoint_loop refresh pause
checkpoint_loop-SameRows w deadline zero db = (refl, refl)
checkpoint_loop-SameRows w deadline (suc fuel) db =
    next_round-SameRows (refresh w db).scan.cancel_requested (leb deadline (w.time db.moment))
      (refresh w db).scan.pause_requested db (refresh w db) _ (refl, refl)
      (checkpoint_loop-SameRows w deadline fuel (pause (refresh w db)))

pub checkpoint-IsQuiet : (w : World) (deadline : ℕ) → IsQuiet (checkpoint w deadline)
unfolding checkpoint
checkpoint-IsQuiet w deadline = record {
  log = λ db. (checkpoint_loop-SameRows w deadline (suc (deadline - w.time db.moment)) db).0;
  reports = λ db. (checkpoint_loop-SameRows w deadline (suc (deadline - w.time db.moment)) db).1;
}

pub persist_engine-IsQuiet :
    (mask : Text → Text) (r : EngineResult) → IsQuiet (persist_engine mask r)
unfolding persist_engine
persist_engine-IsQuiet mask r = record { log = λ db. refl; reports = λ db. refl }

pub apply_baselines-IsQuiet : (checks : List Check) → IsQuiet (apply_baselines checks)
unfolding apply_baselines
apply_baselines-IsQuiet checks = record { log = λ db. refl; reports = λ db. refl }

module _ (w : World) (percent : ℕ → ℕ → ℕ) (identity_count deadline : ℕ) where
  note_unreachable-IsQuiet :
      (failures : List Text) → IsQuiet (note_unreachable w percent identity_count deadline failures)
  unfolding note_unreachable
  note_unreachable-IsQuiet failures = record { log = λ db. refl; reports = λ db. refl }

  require_reachable-IsQuiet :
      (failures : List Text) (a : Applied)
      → IsQuiet (require_reachable w percent identity_count deadline failures a)
  unfolding require_reachable
  require_reachable-IsQuiet failures a =
      if-IsQuiet (not (is_empty a.endpoints) && a.reached == 0) _ _
        (>>=-IsQuiet _ _ (note_unreachable-IsQuiet failures)
          (λ _. raise-IsQuiet (target_unreachable (take 3 a.reasons))))
        (pure-IsQuiet tt)

  pub check_baselines-IsQuiet :
      (name : EngineName) (r : EngineResult) (failures : List Text)
      → IsQuiet (check_baselines w percent identity_count deadline name r failures)
  unfolding check_baselines
  check_baselines-IsQuiet name r failures =
      if-IsQuiet (is_custom name) _ _
        (>>=-IsQuiet _ _ (apply_baselines-IsQuiet (checks_or_none r.checks))
          (require_reachable-IsQuiet failures))
        (pure-IsQuiet tt)

module _ (job : Job) where
  pub admit-IsQuiet : (url : Text) → IsQuiet (admit job url)
  unfolding admit
  admit-IsQuiet url = >>=-IsQuiet _ _ look-IsQuiet (λ now. verdict _)
    where
      verdict :
          (r : Scope.Checked Target)
          → IsQuiet {A = Unit {0}}
              (elim r [ Scope.ok target ↦ pure tt | Scope.err e ↦ raise (raised (job.describe e)) ])
      verdict (Scope.ok t) = pure-IsQuiet tt
      verdict (Scope.err e) = raise-IsQuiet _

  pub require_target-IsQuiet : IsQuiet (require_target job)
  unfolding require_target
  require_target-IsQuiet = elim (Option-cases job.target) [
    | inl e ↦ rw e (raise-IsQuiet _)
    | inr (url, e) ↦ rw e (pure-IsQuiet url)
  ]

  pub add_endpoints-IsQuiet : (es : List Listed) → IsQuiet (add_endpoints job es)
  unfolding add_endpoints add_endpoint
  add_endpoints-IsQuiet [] = pure-IsQuiet tt
  add_endpoints-IsQuiet (e ∷ es) = >>=-IsQuiet _ _ (admit-IsQuiet e.base_url) (λ _.
      >>=-IsQuiet (add_endpoint job e.row) (λ _. add_endpoints job es)
        (record { log = λ db. refl; reports = λ db. refl }) (λ _. add_endpoints-IsQuiet es))

  pub add_specification-IsQuiet : (i : Inventory) → IsQuiet (add_specification job i)
  unfolding add_specification
  add_specification-IsQuiet i = if-IsQuiet (not i.has_document) _ _ (pure-IsQuiet tt) (
      if-IsQuiet (is_empty i.endpoints) _ _ (raise-IsQuiet _)
        (record { log = λ db. refl; reports = λ db. refl }))

  pub add_findings-IsQuiet : (raw : List FindingDraft) → IsQuiet (add_findings job raw)
  unfolding add_findings
  add_findings-IsQuiet raw = record { log = λ db. refl; reports = λ db. refl }

  pub mark_again-IsQuiet : IsQuiet (mark_again job)
  unfolding mark_again apply_baselines
  mark_again-IsQuiet = record { log = λ db. refl; reports = λ db. refl }
