-- ===== src/Custom/Bodies.antt =====
-- The mutation points of a body and the body with a payload in one of them: `_body_points` and
-- `_replace_body_value` of app/security_tests/input_validation.py.
use api_scanner.Common.{
  ℕ, zero, suc, ◌+◌, Bool, true, false, ◌≡◌, refl, sym, ◌∙◌, inl, inr, Option, none, some, List, [],
  ◌∷◌, ◌++◌, Bool-cases, All, All-append, All-weaken, if◌then◌else◌, arith,
}
use api_scanner.Common.Text.{Text, text_eq, text_eq_iff, text_eq_refl}
use mathlib.Core.List.{append_assoc, append-nil}
use api_scanner.Json.{Json, null, bool, number, str, arr, obj, Items, nil, cons, Fields, end, field}
use api_scanner.Custom.{Part, key, index, MutationPoint, Web}
use api_scanner.Custom.Points.{
  body_point, child_schema, item_schema, body_points, item_points, field_points, replace_body_value,
  replace_in_field, replace_in_item,
}

-- What a path leads to, in a body.
unfoldable mutual
  pub value_at : List Part → Json → Option Json
  value_at [] body = some body
  value_at (key k ∷ path) (obj fields) = field_at k path fields
  value_at (index i ∷ path) (arr items) = item_at i path items
  value_at (_ ∷ path) body = none

  pub field_at : Text → List Part → Fields → Option Json
  field_at k path end = none
  field_at k path (field j v fields) =
      if text_eq j k then value_at path v else field_at k path fields

  pub item_at : ℕ → List Part → Items → Option Json
  item_at i path nil = none
  item_at zero path (cons v items) = value_at path v
  item_at (suc i) path (cons v items) = item_at i path items

abbrev has_key : Text → Fields → Bool
has_key k end = false
has_key k (field j v fields) = if text_eq j k then true else has_key k fields

-- No object of a body has a key twice.
unfoldable mutual
  pub HasKeysOnce : Json → Type 0
  HasKeysOnce (obj fields) = FieldsOnce fields
  HasKeysOnce (arr items) = ItemsOnce items
  HasKeysOnce v = Unit

  pub FieldsOnce : Fields → Type 0
  FieldsOnce end = Unit
  FieldsOnce (field k v fields) = (has_key k fields ≡ false) × HasKeysOnce v × FieldsOnce fields

  pub ItemsOnce : Items → Type 0
  ItemsOnce nil = Unit
  ItemsOnce (cons v items) = HasKeysOnce v × ItemsOnce items

-- Where a path led somewhere, it leads to the new value afterwards.
mutual
  unfolding value_at replace_body_value

  value_at-replace :
      (path : List Part) (new body old : Json)
      → value_at path body ≡ some old
      → value_at path (replace_body_value path new body) ≡ some new
  value_at-replace [] new body old h = refl
  value_at-replace (key k ∷ path) new (obj fields) old h = field_at-replace k path new fields old h
  value_at-replace (index i ∷ path) new (arr items) old h = item_at-replace i path new items old h
  value_at-replace (key k ∷ path) new null old h = cc
  value_at-replace (key k ∷ path) new (bool b) old h = cc
  value_at-replace (key k ∷ path) new (number n) old h = cc
  value_at-replace (key k ∷ path) new (str t) old h = cc
  value_at-replace (key k ∷ path) new (arr items) old h = cc
  value_at-replace (index i ∷ path) new null old h = cc
  value_at-replace (index i ∷ path) new (bool b) old h = cc
  value_at-replace (index i ∷ path) new (number n) old h = cc
  value_at-replace (index i ∷ path) new (str t) old h = cc
  value_at-replace (index i ∷ path) new (obj fields) old h = cc

  field_at-replace :
      (k : Text) (path : List Part) (new : Json) (fields : Fields) (old : Json)
      → field_at k path fields ≡ some old
      → field_at k path (replace_in_field k path new fields) ≡ some new
  field_at-replace k path new end old h = cc
  field_at-replace k path new (field j v fields) old h = elim (Bool-cases (text_eq j k)) [
    | inl e ↦ rw e (rw e (value_at-replace path new v old (rw e at h)))
    | inr e ↦ rw e (rw e (field_at-replace k path new fields old (rw e at h)))
  ]

  item_at-replace :
      (i : ℕ) (path : List Part) (new : Json) (items : Items) (old : Json)
      → item_at i path items ≡ some old
      → item_at i path (replace_in_item i path new items) ≡ some new
  item_at-replace i path new nil old h = cc
  item_at-replace zero path new (cons v items) old h = value_at-replace path new v old h
  item_at-replace (suc i) path new (cons v items) old h = item_at-replace i path new items old h

-- A point of `body_points` is at a place of the body: its path goes on from `before`.
abbrev IsAt : List Part → Json → MutationPoint → Type 0
IsAt before body p =
    (path : List Part) × (p.body_path ≡ before ++ path) × (value_at path body ≡ some p.baseline)

abbrev IsInFields : List Part → Fields → MutationPoint → Type 0
IsInFields before fields p =
    (k : Text) × (path : List Part) × (p.body_path ≡ before ++ key k ∷ path)
    × (field_at k path fields ≡ some p.baseline)
    × (has_key k fields ≡ true)

abbrev IsInItems : List Part → ℕ → Items → MutationPoint → Type 0
IsInItems before at items p =
    (i : ℕ) × (path : List Part) × (p.body_path ≡ before ++ index (at + i) ∷ path)
    × (item_at i path items ≡ some p.baseline)

other_key :
    (k j : Text) (fields : Fields)
    → has_key k fields ≡ false
    → has_key j fields ≡ true
    → text_eq k j ≡ false
other_key k j fields a b = elim (Bool-cases (text_eq k j)) [
  | inl e ↦ let same : k ≡ j = (text_eq_iff k j).0 e in cc
  | inr e ↦ e
]

module _ (w : Web) (media_type : Text) where
  mutual
    unfolding body_points value_at HasKeysOnce body_point

    body_points-IsAt :
        (schema : Json) (before : List Part) (body : Json)
        → HasKeysOnce body
        → All (IsAt before body) (body_points w media_type schema before body)
    body_points-IsAt schema before null h = (([], sym (append-nil before), refl), tt)
    body_points-IsAt schema before (bool b) h = (([], sym (append-nil before), refl), tt)
    body_points-IsAt schema before (number n) h = (([], sym (append-nil before), refl), tt)
    body_points-IsAt schema before (str t) h = (([], sym (append-nil before), refl), tt)
    body_points-IsAt schema before (arr items) h =
        All-weaken (IsInItems before 0 items) (IsAt before (arr items)) _
          (λ p (i, path, e, f). (index i ∷ path, (let z : 0 + i ≡ i = omega arith in rw z at e), f))
          (item_points-IsInItems (item_schema w schema) before 0 3 items h)
    body_points-IsAt schema before (obj fields) h =
        All-weaken (IsInFields before fields) (IsAt before (obj fields)) _
          (λ p (k, path, e, f, g). (key k ∷ path, e, f))
          (field_points-IsInFields schema before fields h)

    field_points-IsInFields :
        (schema : Json) (before : List Part) (fields : Fields)
        → FieldsOnce fields
        → All (IsInFields before fields) (field_points w media_type schema before fields)
    field_points-IsInFields schema before end h = tt
    field_points-IsInFields schema before (field k v fields) (a, b, c) =
        All-append _ (body_points w media_type (child_schema w schema k) (before ++ key k ∷ []) v) _
          (All-weaken (IsAt (before ++ key k ∷ []) v) (IsInFields before (field k v fields)) _
            (λ p (path, e, f). (
              k,
              path,
              e ∙ append_assoc before (key k ∷ []) path,
              rw text_eq_refl f,
              rw text_eq_refl refl,
            ))
            (body_points-IsAt (child_schema w schema k) (before ++ key k ∷ []) v b))
          (All-weaken (IsInFields before fields) (IsInFields before (field k v fields)) _
            (λ p (j, path, e, f, g).
              (j, path, e, rw (other_key k j fields a g) f, rw (other_key k j fields a g) g))
            (field_points-IsInFields schema before fields c))

    item_points-IsInItems :
        (schema : Json) (before : List Part) (at left : ℕ) (items : Items)
        → ItemsOnce items
        → All (IsInItems before at items) (item_points w media_type schema before at left items)
    item_points-IsInItems schema before at zero items h = tt
    item_points-IsInItems schema before at (suc left) nil h = tt
    item_points-IsInItems schema before at (suc left) (cons v items) (a, b) =
        All-append _ (body_points w media_type schema (before ++ index at ∷ []) v) _
          (All-weaken (IsAt (before ++ index at ∷ []) v) (IsInItems before at (cons v items)) _
            (λ p (path, e, f). (
              0,
              path,
              (let z : at + 0 ≡ at = omega arith in
                  rw z (e ∙ append_assoc before (index at ∷ []) path)),
              f,
            ))
            (body_points-IsAt schema (before ++ index at ∷ []) v a))
          (All-weaken (IsInItems before (suc at) items) (IsInItems before at (cons v items)) _
            (λ p (i, path, e, f).
              (suc i, path, (let z : at + suc i ≡ suc at + i = omega arith in rw z e), f))
            (item_points-IsInItems schema before (suc at) left items b))

-- For every media type, schema, value and body whose objects have each key once: the path of each
-- mutation point of the body leads to the baseline of the point, and in the body with the value put
-- there it leads to the value.
pub body_points-replaced :
    (w : Web) (media_type : Text) (schema new body : Json)
    → HasKeysOnce body
    → All
        (λ p.
          (value_at p.body_path body ≡ some p.baseline)
          × (value_at p.body_path (replace_body_value p.body_path new body) ≡ some new))
        (body_points w media_type schema [] body)
body_points-replaced w media_type schema new body h =
    All-weaken (IsAt [] body) _ (body_points w media_type schema [] body)
      (λ p (path, e, f).
        let g = rw (sym e) at f in (g, value_at-replace p.body_path new body p.baseline g))
      (body_points-IsAt w media_type schema [] body h)
