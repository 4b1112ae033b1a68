-- ===== src/Redaction/Tests.antt =====
-- Runs of the redaction.
use api_scanner.Common.{◌≡◌, refl, [], if◌then◌else◌}
use api_scanner.Common.Text.{Text, codes, starts_with, lower, occurs}
use api_scanner.Json.{Json, str, obj, end, field}
use api_scanner.Redaction.{redact, redact_value, is_secret, redacted}
use api_scanner.Redaction.Laws.{IsClean, redact-IsClean}

-- Texts that begin with a bearer credential.
abbrev mask : Text → Text
mask t = if starts_with (codes "Bearer ") t then codes "Bearer [REDACTED]" else t

abbrev value : Json
value =
    obj (field (codes "x") (str (codes "Bearer z")) (field (codes "Tokens") (str (codes "y")) end))

redacts :
    redact mask [] value
    ≡ obj (
        field
          (codes "x")
          (str (codes "Bearer [REDACTED]"))
          (field (codes "Tokens") (str redacted) end))
unfolding redact redact_value is_secret lower occurs starts_with
redacts = refl

redact-IsClean_example : IsClean mask (redact mask [] value)
redact-IsClean_example = redact-IsClean mask [] value
