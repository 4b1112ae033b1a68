-- ===== src/Control.antt =====
-- `_control` of app/api/routes.py: what the API may ask of a scan while it waits or runs. The
-- audit row is not modelled.
mod Tests
use mathlib.Core.Path.{subst}
use api_scanner.Common.{
  sym, ap, ◌∙◌, ℕ, ◌≡◌, refl, Bool, true, false, ◌||◌, Option, none, some, List, [], ◌∷◌, arith,
  if◌then◌else◌, any, Bool-cases, inl, inr,
}
use api_scanner.Common.Text.{codes}
use api_scanner.Orchestrator.{ScanStatus, queued, cancelled, is_terminal, Scan, Db}
use api_scanner.Orchestrator.Run.{Job, run, was_cancelled}

pub data Action : Type 0 where
  cancel pause resume : Action

pub data Refusal : Type 0 where
  not_found terminal_scan : Refusal

abbrev pub is_queued : ScanStatus → Bool
is_queued queued = true
is_queued _ = false

unfoldable pub request : Action → Scan → Scan
request cancel scan =
    if is_queued scan.status
    then record scan {
      cancel_requested = true;
      status = cancelled;
      stage = codes "cancelled before execution";
      finished = true;
    }
    else record scan { cancel_requested = true }
request pause scan = record scan { pause_requested = true }
request resume scan = record scan { pause_requested = false }

-- The refusal, if there is one, and the scan after the call.
unfoldable pub control : Action → Option Scan → Option Refusal × Option Scan
unfolding request
control action none = (some not_found, none)
control action (some scan) =
    if is_terminal scan.status
    then (some terminal_scan, some scan)
    else (none, some (request action scan))

abbrev scan_or : Scan → Option Scan → Scan
scan_or scan none = scan
scan_or scan (some after) = after

-- The scan after a sequence of calls, the last one first.
unfoldable pub controls : List Action → Scan → Scan
unfolding control
controls [] scan = scan
controls (a ∷ earlier) scan = scan_or scan (control a (some (controls earlier scan))).1

abbrev pub is_cancel : Action → Bool
is_cancel cancel = true
is_cancel _ = false

control-cases :
    (a : Action) (scan : Scan)
    → (control a (some scan)).1 ≡ some (if is_terminal scan.status then scan else request a scan)
unfolding control
control-cases a scan = elim (Bool-cases (is_terminal scan.status)) [
  | inl e ↦ rw e refl
  | inr e ↦ rw e refl
]

controls-step :
    (a : Action) (earlier : List Action) (scan : Scan)
    → controls (a ∷ earlier) scan ≡ (
        if is_terminal (controls earlier scan).status
        then controls earlier scan
        else request a (controls earlier scan))
unfolding controls
controls-step a earlier scan = ap (scan_or scan) (control-cases a (controls earlier scan))

-- The cancel flag is set if the scan is terminal, and if `seen`.
pub record IsFlagged (seen : Bool) (scan : Scan) : Type 0 where
  pub terminal : is_terminal scan.status ≡ true → scan.cancel_requested ≡ true
  pub cancels : seen ≡ true → scan.cancel_requested ≡ true

request-IsFlagged :
    (a : Action) (seen : Bool) (scan : Scan)
    → IsFlagged seen scan
    → IsFlagged (is_cancel a || seen) (request a scan)
unfolding request
request-IsFlagged cancel seen scan h = elim (Bool-cases (is_queued scan.status)) [
  | inl e ↦ rw e (record { terminal = λ _. refl; cancels = λ _. refl })
  | inr e ↦ rw e (record { terminal = λ _. refl; cancels = λ _. refl })
]
request-IsFlagged pause seen scan h = record { terminal = h.terminal; cancels = h.cancels }
request-IsFlagged resume seen scan h = record { terminal = h.terminal; cancels = h.cancels }

controls-IsFlagged :
    (actions : List Action) (scan : Scan)
    → is_terminal scan.status ≡ false
    → IsFlagged (any is_cancel actions) (controls actions scan)
unfolding controls
controls-IsFlagged [] scan h = record {
  terminal = λ e. absurd (ground arith);
  cancels = λ e. absurd (ground arith);
}
controls-IsFlagged (a ∷ earlier) scan h =
    let known = controls-IsFlagged earlier scan h in
    subst (IsFlagged (is_cancel a || any is_cancel earlier)) (sym (controls-step a earlier scan))
      (elim (Bool-cases (is_terminal (controls earlier scan).status)) [
        | inl e ↦ rw e (record { terminal = known.terminal; cancels = λ _. known.terminal e })
        | inr e ↦ rw e (request-IsFlagged a (any is_cancel earlier) (controls earlier scan) known)
      ])

-- For every job, every scan that is not terminal, and every sequence of calls of cancel, pause and
-- resume with at least one cancel: a run of the scan that starts after them changes nothing.
pub run-controls :
    (job : Job) (db : Db) (actions : List Action)
    → is_terminal db.scan.status ≡ false
    → any is_cancel actions ≡ true
    → run job (some (record db { scan = controls actions db.scan }))
      ≡ some (record db { scan = controls actions db.scan })
unfolding run
run-controls job db actions h c = rw ((controls-IsFlagged actions db.scan h).cancels c) refl
