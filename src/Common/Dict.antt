-- ===== src/Common/Dict.antt =====
-- A dict with texts as keys, as a list of its entries.
use mathlib.Core.Path.{◌≡◌, refl, ◌∙◌}
use mathlib.Core.Logic.{inl, inr}
use mathlib.Core.Bool.{true, false}
use mathlib.Core.Option.{Option, none, some}
use mathlib.Core.List.{List, [], ◌∷◌}
use native.Mathlib.Omega.{arith}
use api_scanner.Common.Tests.{if◌then◌else◌, Bool-cases}
use api_scanner.Common.Lists.{All}
use api_scanner.Common.Sorting.{is_in}
use api_scanner.Common.Keyed.{IsUnique}
use api_scanner.Common.Text.{Text, text_eq, text_eq_iff, text_eq_refl}

module _ {A : Type 0} where
  -- entries.get(key)
  unfoldable pub lookup : Text → List (Text × A) → Option A
  lookup key [] = none
  lookup key ((k, a) ∷ entries) = if text_eq k key then some a else lookup key entries

  -- entries[key] = value
  unfoldable pub insert : Text → A → List (Text × A) → List (Text × A)
  insert key value [] = (key, value) ∷ []
  insert key value ((k, a) ∷ entries) =
      if text_eq k key then (k, value) ∷ entries else (k, a) ∷ insert key value entries

  -- entries.pop(key, None)
  unfoldable pub remove : Text → List (Text × A) → List (Text × A)
  remove key [] = []
  remove key ((k, a) ∷ entries) =
      let rest = remove key entries in if text_eq k key then rest else (k, a) ∷ rest

  pub lookup-remove_self :
      (key : Text) (entries : List (Text × A)) → lookup key (remove key entries) ≡ none
  unfolding lookup remove
  lookup-remove_self key [] = refl
  lookup-remove_self key ((k, a) ∷ entries) = elim (Bool-cases (text_eq k key)) [
    | inl e ↦ rw e (lookup-remove_self key entries)
    | inr e ↦ rw e (rw (e, lookup) (lookup-remove_self key entries))
  ]

  pub lookup-insert :
      (key other : Text) (a : A) (entries : List (Text × A))
      → lookup other (insert key a entries)
        ≡ (if text_eq key other then some a else lookup other entries)
  unfolding lookup insert
  lookup-insert key other a [] = refl
  lookup-insert key other a ((k, b) ∷ entries) = ground (
    arith,
    text_eq_iff key other,
    text_eq_iff k key,
    text_eq_iff k other,
    lookup-insert key other a entries,
  )

  pub lookup-remove :
      (key other : Text) (entries : List (Text × A))
      → text_eq key other ≡ false
      → lookup other (remove key entries) ≡ lookup other entries
  unfolding lookup remove
  lookup-remove key other [] h = refl
  lookup-remove key other ((k, b) ∷ entries) h = ground (
    arith,
    text_eq_iff key other,
    text_eq_iff k key,
    text_eq_iff k other,
    lookup-remove key other entries,
  )

  abbrev pub keys : List (Text × A) → List Text
  keys [] = []
  keys ((k, a) ∷ entries) = k ∷ keys entries

  is_in-insert :
      (x key : Text) (a : A) (entries : List (Text × A))
      → text_eq x key ≡ false
      → is_in x (keys (insert key a entries)) ≡ is_in x (keys entries)
  unfolding insert
  is_in-insert x key a [] h = ground arith
  is_in-insert x key a ((k, b) ∷ entries) h = ground (arith, is_in-insert x key a entries h)

  pub insert-IsUnique :
      (key : Text) (a : A) (entries : List (Text × A))
      → IsUnique (keys entries)
      → IsUnique (keys (insert key a entries))
  unfolding insert
  insert-IsUnique key a [] u = (refl, tt)
  insert-IsUnique key a ((k, b) ∷ entries) (apart, u) = elim (Bool-cases (text_eq k key)) [
    | inl e ↦ rw e (apart, u)
    | inr e ↦ rw e (is_in-insert k key a entries e ∙ apart, insert-IsUnique key a entries u)
  ]

  pub insert-All :
      (P : Text × A → Type 0) (key : Text) (a : A) (entries : List (Text × A))
      → ((k : Text) → text_eq k key ≡ true → P (k, a))
      → All P entries
      → All P (insert key a entries)
  unfolding insert
  insert-All P key a [] p h = (p key (text_eq_refl key), tt)
  insert-All P key a ((k, b) ∷ entries) p (q, h) = elim (Bool-cases (text_eq k key)) [
    | inl e ↦ rw e (p k e, h)
    | inr e ↦ rw e (q, insert-All P key a entries p h)
  ]
