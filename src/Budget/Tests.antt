-- ===== src/Budget/Tests.antt =====
-- Runs of the request budget.
use api_scanner.Common.{◌≡◌, refl, List, [], ◌∷◌, arith, length, min, ◌-◌}
use api_scanner.Budget.{RequestBudget, Reading, take, delay, sends}
use api_scanner.Budget.Laws.{IsSpaced, length-sends, sends-IsSpaced}

-- Two requests, ten ticks apart.
abbrev two : RequestBudget
two = record { maximum = 2; interval = 10; count = 0; last_request = 0 }

abbrev readings : List Reading
readings =
    record { now = 100; woke = 100 }
    ∷ record { now = 103; woke = 110 }
    ∷ record { now = 125; woke = 125 }
    ∷ []

sends-two : sends two readings ≡ 100 ∷ 110 ∷ []
unfolding sends take
sends-two = refl

length-sends_example : length (sends two readings) ≡ min (length readings) (two.maximum - two.count)
length-sends_example = length-sends two readings

sends-IsSpaced_example : IsSpaced 10 0 (sends two readings)
unfolding delay
sends-IsSpaced_example = sends-IsSpaced two readings (omega arith)
