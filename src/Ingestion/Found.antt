-- ===== src/Ingestion/Found.antt =====
-- The endpoints that a discovery finds by itself.
use api_scanner.Common.{
  ltb, true, not, ◌&&◌, ◌||◌, ◌≡◌, and_parts, refl, inl, inr, some, All, Bool-cases,
}
use api_scanner.Common.Text.{Text, codes, text_eq, text_eq_iff, starts_with}
use api_scanner.Common.Keyed.{IsUnique}
use api_scanner.Common.Dict.{keys, insert-IsUnique, insert-All}
use api_scanner.Json.{Json, null, bool, number, str, arr, obj, Fields, end, field}
use api_scanner.Domain.{build_id, Confidence}
use api_scanner.Scope.{Response, ScopedHttpClient}
use api_scanner.Ingestion.{EndpointDefinition, ParsedInventory, Parsed, invalid, crashed}
use api_scanner.Ingestion
use api_scanner.Ingestion.Discovery.{
  Web, Found, found_endpoint, note, is_link, note_links, links_of, note_answer, rooted, says_json,
}

module _ (w : Web) (client : ScopedHttpClient) (base : Text) where
  -- An endpoint under its id, to be read below the base URL.
  pub record IsFound (entry : Text × EndpointDefinition) : Type 0 where
    pub key : entry.0 ≡ entry.1.endpoint_id
    pub id : entry.1.endpoint_id ≡ build_id w.reader.digest base entry.1.path (codes "GET")
    pub base_eq : entry.1.base_url ≡ base
    pub method : entry.1.method ≡ codes "GET"
    pub rooted : starts_with (codes "/") entry.1.path ≡ true

  -- The endpoints of a discovery: each under its own id, and no id twice.
  abbrev pub AreFound : Found → Type 0
  AreFound found = All IsFound found × IsUnique (keys found)

  note-AreFound :
      (path source : Text) (confidence : Confidence) (found : Found)
      → starts_with (codes "/") path ≡ true
      → AreFound found
      → AreFound (note w client (found_endpoint w client base path source confidence) found)
  unfolding note found_endpoint
  note-AreFound path source confidence found rooted (h, unique) = (
    insert-All IsFound id (found_endpoint w client base path source confidence) found
        (λ k e. record {
          key = (text_eq_iff k id).0 e;
          id = refl;
          base_eq = refl;
          method = refl;
          rooted = rooted;
        })
        h,
    insert-IsUnique id (found_endpoint w client base path source confidence) found unique,
  )
    where
      id : Text
      id = build_id w.reader.digest base path (codes "GET")

  note_links-AreFound :
      (fields : Fields) (found : Found)
      → AreFound found
      → AreFound (note_links w client base found fields)
  unfolding note_links
  note_links-AreFound end found h = h
  note_links-AreFound (field k (str t) fields) found h = elim (Bool-cases (is_link w client t)) [
    | inl e ↦ rw e (note_links-AreFound fields _ (note-AreFound t _ _ found (and_parts _ _ e).0 h))
    | inr e ↦ rw e (note_links-AreFound fields found h)
  ]
  note_links-AreFound (field k null fields) found h = note_links-AreFound fields found h
  note_links-AreFound (field k (bool b) fields) found h = note_links-AreFound fields found h
  note_links-AreFound (field k (number n) fields) found h = note_links-AreFound fields found h
  note_links-AreFound (field k (arr items) fields) found h = note_links-AreFound fields found h
  note_links-AreFound (field k (obj inner) fields) found h = note_links-AreFound fields found h

  same-AreFound :
      {found found' : Found} → AreFound found → some found ≡ some found' → AreFound found'
  same-AreFound {found} {found'} h e = let same : found ≡ found' = cc in rw (← same) h

  links_of-AreFound :
      (found : Found) (body : Parsed Json) (found' : Found)
      → AreFound found
      → links_of w client base found body ≡ some found'
      → AreFound found'
  links_of-AreFound found (Ingestion.ok (obj fields)) found' h e =
      let same : note_links w client base found fields ≡ found' = cc in
      rw (← same) (note_links-AreFound fields found h)
  links_of-AreFound found (Ingestion.ok null) found' h e = same-AreFound h e
  links_of-AreFound found (Ingestion.ok (bool b)) found' h e = same-AreFound h e
  links_of-AreFound found (Ingestion.ok (number n)) found' h e = same-AreFound h e
  links_of-AreFound found (Ingestion.ok (str t)) found' h e = same-AreFound h e
  links_of-AreFound found (Ingestion.ok (arr items)) found' h e = same-AreFound h e
  links_of-AreFound found (invalid m) found' h e = same-AreFound h e
  links_of-AreFound found crashed found' h e = cc

  pub note_answer-AreFound :
      (path : Text) (found : Found) (response : Response) (found' : Found)
      → starts_with (codes "/") path ≡ true
      → AreFound found
      → note_answer w client base path found response ≡ some found'
      → AreFound found'
  unfolding note_answer
  note_answer-AreFound path found response found' rooted h e =
      elim (Bool-cases
        (ltb response.status 500 && (says_json response || not (text_eq path (codes "/"))))) [
          | inr plain ↦ same-AreFound h (rw plain at e)
          | inl counts ↦ elim (Bool-cases (says_json response)) [
            | inl json ↦
                links_of-AreFound _ (w.read_body response.body) found'
                  (note-AreFound path _ _ found rooted h) (rw json at (rw counts at e))
            | inr other ↦
                same-AreFound (note-AreFound path _ _ found rooted h) (rw other at (rw counts at e))
          ]
        ]
