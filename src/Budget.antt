-- ===== src/Budget.antt =====
-- `RequestBudget` of app/engines/custom.py: the number and the rate of an engine's requests. Time
-- is counted in ticks, and `interval` is `1 / rate` in ticks. The clock is an input: each call of
-- `take` reads it on entry and once more after its sleep. The lock makes the calls a sequence.
pub mod Laws
mod Tests
use api_scanner.Common.{ℕ, suc, ◌+◌, ◌-◌, Option, none, some, List, [], ◌∷◌, leb, if◌then◌else◌}

pub record RequestBudget : Type 0 where
  pub maximum : ℕ
  pub interval : ℕ
  pub count : ℕ
  pub last_request : ℕ

-- RequestBudget.__init__
unfoldable pub request_budget : ℕ → ℕ → RequestBudget
request_budget maximum interval = record {
  maximum = maximum;
  interval = interval;
  count = 0;
  last_request = 0;
}

-- What `time.monotonic()` shows on entry, and after the sleep.
pub record Reading : Type 0 where
  pub now : ℕ
  pub woke : ℕ

-- max(0.0, (1 / self.rate) - (time.monotonic() - self.last_request))
unfoldable pub delay : RequestBudget → ℕ → ℕ
delay b now = b.interval - (now - b.last_request)

-- `none` is the RuntimeError of an exhausted budget.
unfoldable pub take : RequestBudget → Reading → Option RequestBudget
take b r =
    if leb b.maximum b.count
    then none
    else some (record b { count = b.count + 1; last_request = r.woke })

-- The times at which a sequence of calls lets a request through; a call that raises lets none.
unfoldable pub sends : RequestBudget → List Reading → List ℕ
sends b [] = []
sends b (r ∷ rs) = elim (take b r) [ none ↦ sends b rs | some b' ↦ r.woke ∷ sends b' rs ]
