-- ===== src/Orchestrator/Checkpoint.antt =====
-- `_checkpoint`: between two steps a run reads the scan again, and may end, go on, or wait.
use api_scanner.Common.{
  ℕ, zero, suc, ◌-◌, ◌≤◌, ◌<◌, Bool, true, false, ◌≡◌, refl, arith, leb, if◌then◌else◌,
}
use api_scanner.Common.Text.{Text, codes}
use api_scanner.Orchestrator.{
  ScanStatus, scanning, paused, Db, scan_cancelled, scan_timed_out, Result, ok, stop, Exec,
}

-- What the world shows at each moment: the clock, and the two flags that the API sets; and what
-- `redact` does to a text.
pub record World : Type 0 where
  pub time : ℕ → ℕ
  pub cancel_requested : ℕ → Bool
  pub pause_requested : ℕ → Bool
  pub mask : Text → Text

-- self.db.refresh(scan)
unfoldable pub refresh : World → Db → Db
refresh w db = record db {
  scan = record db.scan {
    cancel_requested = w.cancel_requested db.moment;
    pause_requested = w.pause_requested db.moment;
  };
  moment = suc db.moment;
}

abbrev pub is_paused : ScanStatus → Bool
is_paused paused = true
is_paused _ = false

-- if scan.status == PAUSED: scan.status = SCANNING
unfoldable pub resume : Db → Db
resume db =
    if is_paused db.scan.status
    then record db { scan = record db.scan { status = scanning } }
    else db

unfoldable pub pause : Db → Db
pause db = record db {
  scan = record db.scan { status = paused; stage = codes "paused at safe checkpoint" };
}

-- One round of the loop: the tests on the cancel flag, on the deadline and on the pause flag.
unfoldable pub next_round :
    Bool → Bool → Bool → Db → Result (Unit {0}) × Db → Result (Unit {0}) × Db
next_round true late held seen wait = (stop scan_cancelled, seen)
next_round false true held seen wait = (stop scan_timed_out, seen)
next_round false false false seen wait = (ok tt, resume seen)
next_round false false true seen wait = wait

-- The `while True` loop. A round that waits sleeps two seconds, so the rounds up to the deadline are
-- fewer than the ticks up to it, and `checkpoint` gives one round more than that.
unfoldable pub checkpoint_loop : World → ℕ → ℕ → Exec (Unit {0})
checkpoint_loop w deadline zero db = (stop scan_timed_out, db)
checkpoint_loop w deadline (suc fuel) db =
    let wait = checkpoint_loop w deadline fuel (pause (refresh w db)) in
    let seen = refresh w db in
    next_round seen.scan.cancel_requested (leb deadline (w.time db.moment))
      seen.scan.pause_requested seen wait

unfoldable pub checkpoint : World → ℕ → Exec (Unit {0})
unfolding checkpoint_loop next_round refresh resume pause
checkpoint w deadline db = checkpoint_loop w deadline (suc (deadline - w.time db.moment)) db

-- A pause lasts: the clock moves on between two looks with a sleep in between.
abbrev pub Sleeps : World → Type 0
Sleeps w = (n : ℕ) → w.pause_requested n ≡ true → w.time n < w.time (suc n)

-- How a checkpoint can end, with the moment of the last look.
pub data Ends (w : World) (deadline from : ℕ) : Result (Unit {0}) → Type 0 where
  by_cancel :
      (n : ℕ) → from ≤ n → w.cancel_requested n ≡ true → Ends w deadline from (stop scan_cancelled)
  by_deadline :
      (n : ℕ)
      → from ≤ n
      → w.cancel_requested n ≡ false
      → deadline ≤ w.time n
      → Ends w deadline from (stop scan_timed_out)
  passes :
      (n : ℕ)
      → from ≤ n
      → w.cancel_requested n ≡ false
      → w.time n < deadline
      → w.pause_requested n ≡ false
      → Ends w deadline from (ok tt)

Ends-earlier :
    (w : World) (deadline m n : ℕ) {r : Result (Unit {0})}
    → m ≤ n
    → Ends w deadline n r
    → Ends w deadline m r
Ends-earlier w deadline m n h (by_cancel k a b) = by_cancel k (omega arith) b
Ends-earlier w deadline m n h (by_deadline k a b c) = by_deadline k (omega arith) b c
Ends-earlier w deadline m n h (passes k a b c d) = passes k (omega arith) b c d

still_time :
    (now later deadline fuel : ℕ)
    → deadline - now < suc fuel
    → now < later
    → now < deadline
    → deadline - later < fuel
still_time now later deadline fuel h k l = omega arith

next_round-Ends :
    (w : World) (deadline n : ℕ) (cancel late held : Bool) (seen : Db)
    (wait : Result (Unit {0}) × Db)
    → w.cancel_requested n ≡ cancel
    → leb deadline (w.time n) ≡ late
    → w.pause_requested n ≡ held
    → (late ≡ false → held ≡ true → Ends w deadline n wait.0)
    → Ends w deadline n (next_round cancel late held seen wait).0
unfolding next_round
next_round-Ends w deadline n true late held seen wait c l p h = by_cancel n (omega arith) c
next_round-Ends w deadline n false true held seen wait c l p h =
    by_deadline n (omega arith) c (ground arith)
next_round-Ends w deadline n false false false seen wait c l p h =
    passes n (omega arith) c (ground arith) p
next_round-Ends w deadline n false false true seen wait c l p h = h refl refl

checkpoint_loop-Ends :
    (w : World) (deadline fuel : ℕ) (db : Db)
    → Sleeps w
    → deadline - w.time db.moment < fuel
    → Ends w deadline db.moment (checkpoint_loop w deadline fuel db).0
unfolding checkpoint_loop refresh pause
checkpoint_loop-Ends w deadline zero db sleeps h = absurd (omega arith)
checkpoint_loop-Ends w deadline (suc fuel) db sleeps h =
    next_round-Ends w deadline db.moment (refresh w db).scan.cancel_requested
      (leb deadline (w.time db.moment)) (refresh w db).scan.pause_requested (refresh w db) _ refl
      refl refl
      (λ l p. Ends-earlier w deadline db.moment (suc db.moment) (omega arith) (
        checkpoint_loop-Ends w deadline fuel (pause (refresh w db)) sleeps (
          still_time (w.time db.moment) (w.time (suc db.moment)) deadline fuel h
            (sleeps db.moment p) (ground arith))))

-- For every world whose pauses last, deadline and state: a checkpoint ends; it raises ScanCancelled
-- only when it has seen the cancel flag, raises ScanTimedOut only when it has seen the deadline
-- pass with no cancel flag, and lets the run go on only when it has seen neither, with the pause
-- flag off.
pub checkpoint-Ends :
    (w : World) (deadline : ℕ) (db : Db)
    → Sleeps w
    → Ends w deadline db.moment (checkpoint w deadline db).0
unfolding checkpoint
checkpoint-Ends w deadline db sleeps =
    checkpoint_loop-Ends w deadline (suc (deadline - w.time db.moment)) db sleeps (omega arith)
