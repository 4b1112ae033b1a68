-- ===== src/Ingestion/Resolved.antt =====
-- What `_resolve_deep` leaves of references.
use api_scanner.Common.{
  ℕ, zero, suc, ◌≡◌, refl, inl, inr, none, some, List, ◌∷◌, Bool-cases, Option-cases, All,
  All-append,
}
use api_scanner.Common.Text.{Text, text_eq}
use api_scanner.Common.Sorting.{is_in}
use api_scanner.Json.{
  Json, null, bool, number, str, arr, obj, Items, nil, cons, Fields, end, field, get, dicts_in,
  dicts_in_items, dicts_in_fields,
}
use api_scanner.Ingestion.References.{
  map_fields, ref_key, inlined, map_items, local_text, resolve_deep,
}

-- The dict has no reference into its document.
abbrev pub IsResolved : Fields → Type 0
IsResolved fields = local_text (get ref_key fields) ≡ none

abbrev AllResolved : Json → Type 0
AllResolved v = All IsResolved (dicts_in v)

module _ (f : Json → Json) (resolved : (v : Json) → AllResolved (f v)) where
  map_items-AllResolved : (items : Items) → All IsResolved (dicts_in_items (map_items f items))
  unfolding map_items dicts_in
  map_items-AllResolved nil = tt
  map_items-AllResolved (cons v items) =
      All-append IsResolved _ _ (resolved v) (map_items-AllResolved items)

  map_fields-AllResolved :
      (fields : Fields) → All IsResolved (dicts_in_fields (map_fields f fields))
  unfolding map_fields dicts_in
  map_fields-AllResolved end = tt
  map_fields-AllResolved (field k v fields) =
      All-append IsResolved _ _ (resolved v) (map_fields-AllResolved fields)

-- A function that makes no value a local reference makes no dict one.
map_fields-IsResolved :
    (f : Json → Json)
    → ((v : Json) → local_text (some v) ≡ none → local_text (some (f v)) ≡ none)
    → (fields : Fields) → IsResolved fields
    → IsResolved (map_fields f fields)
unfolding map_fields get
map_fields-IsResolved f keep end h = refl
map_fields-IsResolved f keep (field k v fields) h = elim (Bool-cases (text_eq k ref_key)) [
  | inl e ↦ rw (e, get) (keep v (rw (e, get) at h))
  | inr e ↦ rw (e, get) (map_fields-IsResolved f keep fields (rw (e, get) at h))
]

module _ (document : Fields) where
  resolve_deep-no_text :
      (seen : List Text) (levels : ℕ) (fields : Fields)
      → local_text (some (resolve_deep document seen levels (obj fields))) ≡ none
  unfolding resolve_deep
  resolve_deep-no_text seen zero fields = refl
  resolve_deep-no_text seen (suc levels) fields =
      elim (Option-cases (local_text (get ref_key fields))) [
        | inl e ↦ rw (e, resolve_deep) refl
        | inr (reference, e) ↦
            rw (e, resolve_deep)
              (elim (Bool-cases (is_in reference seen)) [
                | inl old ↦ rw old refl
                | inr new ↦ rw new (
                    resolve_deep-no_text (reference ∷ seen) levels
                      (inlined document reference fields))
              ])
      ]

  resolve_deep-keeps :
      (seen : List Text) (levels : ℕ) (v : Json)
      → local_text (some v) ≡ none
      → local_text (some (resolve_deep document seen levels v)) ≡ none
  unfolding resolve_deep
  resolve_deep-keeps seen zero v h = refl
  resolve_deep-keeps seen (suc levels) (obj fields) h =
      resolve_deep-no_text seen (suc levels) fields
  resolve_deep-keeps seen (suc levels) (arr items) h = refl
  resolve_deep-keeps seen (suc levels) null h = refl
  resolve_deep-keeps seen (suc levels) (bool b) h = refl
  resolve_deep-keeps seen (suc levels) (number n) h = refl
  resolve_deep-keeps seen (suc levels) (str t) h = h

  -- For every document, set of references seen, number of levels left and value: no dict of the
  -- result, at whatever depth, has a "$ref" that is a text starting with "#/". So the resolution of
  -- a request body ends on documents whose references form a cycle too, and leaves none of them.
  pub resolve_deep-AllResolved :
      (seen : List Text) (levels : ℕ) (v : Json)
      → All IsResolved (dicts_in (resolve_deep document seen levels v))
  unfolding resolve_deep dicts_in
  resolve_deep-AllResolved seen zero v = (refl, tt)
  resolve_deep-AllResolved seen (suc levels) (obj fields) =
      elim (Option-cases (local_text (get ref_key fields))) [
        | inl e ↦
            rw (e, resolve_deep)
              (
                map_fields-IsResolved (resolve_deep document seen levels)
                    (resolve_deep-keeps seen levels) fields e,
                map_fields-AllResolved (resolve_deep document seen levels)
                    (resolve_deep-AllResolved seen levels) fields,
              )
        | inr (reference, e) ↦
            rw (e, resolve_deep)
              (elim (Bool-cases (is_in reference seen)) [
                | inl old ↦ rw old (refl, tt)
                | inr new ↦ rw new (
                    resolve_deep-AllResolved (reference ∷ seen) levels
                      (obj (inlined document reference fields)))
              ])
      ]
  resolve_deep-AllResolved seen (suc levels) (arr items) =
      map_items-AllResolved (resolve_deep document seen levels)
        (resolve_deep-AllResolved seen levels) items
  resolve_deep-AllResolved seen (suc levels) null = tt
  resolve_deep-AllResolved seen (suc levels) (bool b) = tt
  resolve_deep-AllResolved seen (suc levels) (number n) = tt
  resolve_deep-AllResolved seen (suc levels) (str t) = tt
