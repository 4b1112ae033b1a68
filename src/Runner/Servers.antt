-- ===== src/Runner/Servers.antt =====
-- Where a rewritten OpenAPI document sends a fuzzer.
use api_scanner.Common.{true, false, ◌≡◌, refl, inl, inr, some, if◌then◌else◌, Bool-cases}
use api_scanner.Common.Text.{Text, codes, text_eq, text_eq_refl}
use api_scanner.Json.{
  Json, null, bool, number, str, arr, obj, Items, nil, cons, Fields, end, field, get,
}
use api_scanner.Custom.Schema.{put_field}
use api_scanner.Runner.{World}
use api_scanner.Runner.Rewrite.{
  servers, proxied, replace_servers, replace_items, replace_fields, is_openapi,
  rewrite_specification,
}

-- Every entry "servers" at whatever depth is the proxy.
abbrev mutual
  pub Pointed : Text → Json → Type 0
  Pointed url null = Unit
  Pointed url (bool b) = Unit
  Pointed url (number n) = Unit
  Pointed url (str t) = Unit
  Pointed url (arr items) = PointedItems url items
  Pointed url (obj fields) = PointedFields url fields

  pub PointedItems : Text → Items → Type 0
  PointedItems url nil = Unit
  PointedItems url (cons v items) = Pointed url v × PointedItems url items

  pub PointedFields : Text → Fields → Type 0
  PointedFields url end = Unit
  PointedFields url (field k v fields) =
      (text_eq k servers ≡ true → v ≡ proxied url) × Pointed url v × PointedFields url fields

-- The value with every entry "servers" taken away, at whatever depth.
unfoldable mutual
  pub without_servers : Json → Json
  without_servers null = null
  without_servers (bool b) = bool b
  without_servers (number n) = number n
  without_servers (str t) = str t
  without_servers (arr items) = arr (items_without items)
  without_servers (obj fields) = obj (fields_without fields)

  pub items_without : Items → Items
  items_without nil = nil
  items_without (cons v items) = cons (without_servers v) (items_without items)

  pub fields_without : Fields → Fields
  fields_without end = end
  fields_without (field k v fields) =
      let rest = fields_without fields in
      if text_eq k servers then rest else field k (without_servers v) rest

url_is_other : text_eq (codes "url") servers ≡ false
unfolding text_eq
url_is_other = refl

proxied-Pointed : (url : Text) → Pointed url (proxied url)
proxied-Pointed url = (((λ h. cc url_is_other), tt, tt), tt)

mutual
  unfolding replace_servers without_servers

  replace_servers-Pointed : (url : Text) (v : Json) → Pointed url (replace_servers url v)
  replace_servers-Pointed url null = tt
  replace_servers-Pointed url (bool b) = tt
  replace_servers-Pointed url (number n) = tt
  replace_servers-Pointed url (str t) = tt
  replace_servers-Pointed url (arr items) = replace_items-Pointed url items
  replace_servers-Pointed url (obj fields) = replace_fields-Pointed url fields

  replace_items-Pointed : (url : Text) (items : Items) → PointedItems url (replace_items url items)
  replace_items-Pointed url nil = tt
  replace_items-Pointed url (cons v items) =
      (replace_servers-Pointed url v, replace_items-Pointed url items)

  replace_fields-Pointed :
      (url : Text) (fields : Fields) → PointedFields url (replace_fields url fields)
  replace_fields-Pointed url end = tt
  replace_fields-Pointed url (field k v fields) = elim (Bool-cases (text_eq k servers)) [
    | inl e ↦ rw e ((λ _. refl), proxied-Pointed url, replace_fields-Pointed url fields)
    | inr e ↦ rw e ((λ h. cc), replace_servers-Pointed url v, replace_fields-Pointed url fields)
  ]

  replace_servers-without :
      (url : Text) (v : Json) → without_servers (replace_servers url v) ≡ without_servers v
  replace_servers-without url null = refl
  replace_servers-without url (bool b) = refl
  replace_servers-without url (number n) = refl
  replace_servers-without url (str t) = refl
  replace_servers-without url (arr items) = rw (replace_items-without url items) refl
  replace_servers-without url (obj fields) = rw (replace_fields-without url fields) refl

  replace_items-without :
      (url : Text) (items : Items) → items_without (replace_items url items) ≡ items_without items
  replace_items-without url nil = refl
  replace_items-without url (cons v items) =
      rw (replace_servers-without url v) (rw (replace_items-without url items) refl)

  replace_fields-without :
      (url : Text) (fields : Fields)
      → fields_without (replace_fields url fields) ≡ fields_without fields
  replace_fields-without url end = refl
  replace_fields-without url (field k v fields) = elim (Bool-cases (text_eq k servers)) [
    | inl e ↦ rw e (replace_fields-without url fields)
    | inr e ↦
        rw e (rw (replace_servers-without url v) (rw (replace_fields-without url fields) refl))
  ]

put_field-without :
    (v : Json) (fields : Fields)
    → fields_without (put_field servers v fields) ≡ fields_without fields
unfolding put_field without_servers
put_field-without v end = rw text_eq_refl refl
put_field-without v (field k x fields) = elim (Bool-cases (text_eq k servers)) [
  | inl e ↦ rw e (rw (e, without_servers) refl)
  | inr e ↦ rw e (rw (e, without_servers) (rw (put_field-without v fields) refl))
]

-- The first entry "servers" of a rewritten dict, if it has one.
get-replace_put :
    (url : Text) (v : Json) (fields : Fields)
    → get servers (replace_fields url (put_field servers v fields)) ≡ some (proxied url)
unfolding get put_field replace_servers
get-replace_put url v end = rw text_eq_refl refl
get-replace_put url v (field k x fields) = elim (Bool-cases (text_eq k servers)) [
  | inl e ↦ rw e (rw e refl)
  | inr e ↦ rw e (rw e (get-replace_put url v fields))
]

-- A document that sends all requests to `url` and is `document` otherwise.
pub record IsPointed (url : Text) (document rewritten : Fields) : Type 0 where
  pub root : get servers rewritten ≡ some (proxied url)
  pub everywhere : PointedFields url rewritten
  pub otherwise : fields_without rewritten ≡ fields_without document

-- For every proxy URL and OpenAPI document: in the rewritten document the root has an entry
-- "servers", every entry "servers" at whatever depth is the list of the proxy URL alone, and without
-- the entries of that name the document is as it was.
pub rewrite_specification-IsPointed :
    (w : World) (url : Text) (document : Fields)
    → is_openapi document ≡ true
    → IsPointed url document (rewrite_specification w url document)
unfolding rewrite_specification
rewrite_specification-IsPointed w url document h = rw h (record {
  root = get-replace_put url (proxied url) document;
  everywhere = replace_fields-Pointed url (put_field servers (proxied url) document);
  otherwise =
      rw (replace_fields-without url (put_field servers (proxied url) document))
        (put_field-without (proxied url) document);
})
