-- ===== src/Redaction/Laws.antt =====
-- What is left of a value after `redact`.
use api_scanner.Common.{◌≡◌, ◌⊎◌, inl, inr, refl, true, if◌then◌else◌, Bool-cases, arith}
use api_scanner.Common.Text.{Text}
use api_scanner.Json.{Json, null, bool, number, str, arr, obj, Items, nil, cons, Fields, end, field}
use api_scanner.Redaction.{is_secret, redacted, redact_value, redact_items, redact_fields, redact}

-- Each string has gone through `mask` or is the mark, and each field with a secret name is the mark.
abbrev mutual
  pub IsClean : (Text → Text) → Json → Type 0
  IsClean mask null = Unit
  IsClean mask (bool b) = Unit
  IsClean mask (number n) = Unit
  IsClean mask (str t) = (t ≡ redacted) ⊎ ((s : Text) × (t ≡ mask s))
  IsClean mask (arr items) = AreClean mask items
  IsClean mask (obj fields) = FieldsClean mask fields

  pub AreClean : (Text → Text) → Items → Type 0
  AreClean mask nil = Unit
  AreClean mask (cons v items) = IsClean mask v × AreClean mask items

  pub FieldsClean : (Text → Text) → Fields → Type 0
  FieldsClean mask end = Unit
  FieldsClean mask (field k v fields) =
      (is_secret k ≡ true → v ≡ str redacted) × IsClean mask v × FieldsClean mask fields

module _ (mask : Text → Text) where
  hidden-IsClean :
      (k : Text) (v : Json)
      → IsClean mask v
      → (is_secret k ≡ true → (if is_secret k then str redacted else v) ≡ str redacted)
        × IsClean mask (if is_secret k then str redacted else v)
  hidden-IsClean k v h = elim (Bool-cases (is_secret k)) [
    | inl e ↦ rw e (λ _. refl, inl refl)
    | inr e ↦ rw e (λ x. absurd (ground arith), h)
  ]

  mutual
    unfolding redact_value

    redact_value-IsClean : (v : Json) → IsClean mask (redact_value mask v)
    redact_value-IsClean null = tt
    redact_value-IsClean (bool b) = tt
    redact_value-IsClean (number n) = tt
    redact_value-IsClean (str t) = inr (t, refl)
    redact_value-IsClean (arr items) = redact_items-AreClean items
    redact_value-IsClean (obj fields) = redact_fields-FieldsClean fields

    redact_items-AreClean : (items : Items) → AreClean mask (redact_items mask items)
    redact_items-AreClean nil = tt
    redact_items-AreClean (cons v items) = (redact_value-IsClean v, redact_items-AreClean items)

    redact_fields-FieldsClean : (fields : Fields) → FieldsClean mask (redact_fields mask fields)
    redact_fields-FieldsClean end = tt
    redact_fields-FieldsClean (field k v fields) =
        let (marked, clean) = hidden-IsClean k (redact_value mask v) (redact_value-IsClean v) in
        (marked, clean, redact_fields-FieldsClean fields)

-- For every mask, key and value: in what `redact` gives, at any depth, each field with a secret
-- name holds the mark, and each string is the mark or has gone through the mask.
pub redact-IsClean : (mask : Text → Text) (key : Text) (v : Json) → IsClean mask (redact mask key v)
unfolding redact
redact-IsClean mask key v =
    (hidden-IsClean mask key (redact_value mask v) (redact_value-IsClean mask v)).1
