-- ===== src/Domain/Risk.antt =====
-- app/risk/scoring.py. Scores are in tenths, the bases in tenths and the multipliers in hundredths,
-- so a product is in thousandths. Python rounds the binary product; of the fifteen products one is
-- a tie in decimals, 1.65, whose binary value lies above it, so rounding half up gives all of them.
use api_scanner.Common.{ℕ, ◌+◌, ◌*◌, ◌/◌, ◌≤◌, ◌≡◌, ◌↔◌, arith}
use api_scanner.Domain.{Severity, info, critical, Confidence, severity_rank, confidence_rank}

unfoldable pub severity_base : Severity → ℕ
severity_base info = 0
severity_base Severity.low = 30
severity_base Severity.medium = 55
severity_base Severity.high = 80
severity_base critical = 100

unfoldable pub confidence_multiplier : Confidence → ℕ
confidence_multiplier Confidence.low = 55
confidence_multiplier Confidence.medium = 80
confidence_multiplier Confidence.high = 100

unfoldable pub calculate_risk : Severity → Confidence → ℕ
unfolding severity_base confidence_multiplier
calculate_risk s c = (severity_base s * confidence_multiplier c + 50) / 100

-- For all severities and confidences: the score is at most ten (100 tenths) and at most the
-- severity's base, and it is zero exactly for INFO.
pub calculate_risk_bounds :
    (s : Severity) (c : Confidence)
    → (calculate_risk s c ≤ 100)
      × (calculate_risk s c ≤ severity_base s)
      × ((calculate_risk s c ≡ 0) ↔ (s ≡ info))
unfolding calculate_risk
calculate_risk_bounds s c = (ground arith, ground arith, (λ h. ground arith, λ h. ground arith))

-- For all severities and confidences: a score does not fall when the severity's rank or the
-- confidence's rank rises.
pub calculate_risk_mono :
    (s t : Severity) (c d : Confidence)
    → severity_rank s ≤ severity_rank t
    → confidence_rank c ≤ confidence_rank d
    → calculate_risk s c ≤ calculate_risk t d
unfolding calculate_risk severity_rank confidence_rank
calculate_risk_mono s t c d h k = ground arith
