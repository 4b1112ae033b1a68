-- ===== src/Budget/Laws.antt =====
-- How many requests a budget lets through, and how far apart they are.
use api_scanner.Common.{
  ℕ, suc, ◌+◌, ◌-◌, ◌≤◌, min, ◌≡◌, refl, List, [], ◌∷◌, arith, length, leb, inl, inr, Bool-cases,
  false,
}
use api_scanner.Budget.{RequestBudget, Reading, delay, take, sends}

-- A monotonic clock and a sleep that lasts at least as long as it was asked to.
abbrev pub IsClock : RequestBudget → List Reading → Type 0
IsClock b [] = Unit
IsClock b (r ∷ rs) =
    (b.last_request ≤ r.now)
    × (r.now + delay b r.now ≤ r.woke)
    × IsClock (record b { count = b.count + 1; last_request = r.woke }) rs

-- Each time is at least `interval` after the one before, the first after `start`.
abbrev pub IsSpaced : ℕ → ℕ → List ℕ → Type 0
IsSpaced interval start [] = Unit
IsSpaced interval start (t ∷ ts) = (start + interval ≤ t) × IsSpaced interval t ts

leb-false : (m n : ℕ) → leb m n ≡ false → suc n ≤ m
leb-false m n h = ground arith

exhausted-sends : (b : RequestBudget) (rs : List Reading) → b.maximum ≤ b.count → sends b rs ≡ []
unfolding sends take
exhausted-sends b [] h = refl
exhausted-sends b (r ∷ rs) h = ground (arith, exhausted-sends b rs)

-- For every budget and sequence of calls: the requests let through are as many as the calls, up to
-- what the maximum leaves.
pub length-sends :
    (b : RequestBudget) (rs : List Reading)
    → length (sends b rs) ≡ min (length rs) (b.maximum - b.count)
unfolding sends take
length-sends b [] = omega arith
length-sends b (r ∷ rs) = elim (Bool-cases (leb b.maximum b.count)) [
  | inl e ↦ rw (e, sends) (rw (exhausted-sends b rs (ground arith)) (ground arith))
  | inr e ↦
      rw (e, sends)
        (omega (
          arith,
          length-sends (record b { count = b.count + 1; last_request = r.woke }) rs,
          leb-false b.maximum b.count e,
        ))
]

-- For every budget and sequence of calls whose clock never goes back and whose sleeps last: two
-- successive requests are at least one interval apart, the first counted from the last request.
pub sends-IsSpaced :
    (b : RequestBudget) (rs : List Reading)
    → IsClock b rs
    → IsSpaced b.interval b.last_request (sends b rs)
unfolding sends take delay
sends-IsSpaced b [] h = tt
sends-IsSpaced b (r ∷ rs) (monotone, slept, h) = elim (Bool-cases (leb b.maximum b.count)) [
  | inl e ↦ rw (e, sends) (rw (exhausted-sends b rs (ground arith)) tt)
  | inr e ↦
      rw (e, sends)
        (omega arith, sends-IsSpaced (record b { count = b.count + 1; last_request = r.woke }) rs h)
]
