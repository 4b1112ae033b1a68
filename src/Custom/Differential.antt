-- ===== src/Custom/Differential.antt =====
-- The differential checks on a target that answers alike: Custom/Evidence.antt.
use api_scanner.Common.{
  ℕ, ◌+◌, ◌-◌, Bool, false, ◌≡◌, refl, inl, inr, Option, none, some, List, [], ◌∷◌, Bool-cases, All,
  All-intro, select, leb, length, arith,
}
use api_scanner.Common.Text.{Text}
use api_scanner.Common.Keyed.{mem-is_in}
use api_scanner.Scope.{Response}
use api_scanner.Custom.{below, Web}
use api_scanner.Custom.Evidence.{
  Pattern, response_similarity, collection_count, matched, new_markers, sql_error_evidence, exceeds,
  boolean_evidence, is_success, sql_boolean_evidence, nosql_injection_evidence,
  path_traversal_evidence, nosql_error_patterns,
}

select-none :
    {A : Type 0} (p : A → Bool) (xs : List A) → All (λ x. p x ≡ false) xs → select p xs ≡ []
select-none p [] h = refl
select-none p (x ∷ xs) (h, k) = rw (h, select-none p xs k) refl

module _ (w : Web) where
  exceeds_self : (o : Option ℕ) → exceeds w o o ≡ false
  exceeds_self none = refl
  exceeds_self (some n) = ground arith

  new_markers_self : (patterns : List Pattern) (text : Text) → new_markers w patterns text text ≡ []
  unfolding new_markers
  new_markers_self patterns text = select-none _ (matched w patterns text) (
      All-intro _ (matched w patterns text)
        (λ name m. rw (mem-is_in name (matched w patterns text) m) refl))

  boolean_evidence_self : (r : Response) (body : Text) → boolean_evidence w r r body body ≡ none
  unfolding boolean_evidence
  boolean_evidence_self r body =
      let d : leb 20 ((length body - length body) + (length body - length body)) ≡ false =
        ground arith in
      rw (exceeds_self (collection_count w body), d)
        (elim (Bool-cases (below 72 (response_similarity w body body))) [
          | inl e ↦ rw e refl
          | inr e ↦ rw e refl
        ])

-- For every web and response, and for any two payloads: if all requests are answered by that
-- response, the differential checks of SQL, NoSQL and path traversal have no evidence.
pub alike-without_evidence :
    (w : Web) (r : Response) (first second : Text)
    → (sql_error_evidence w r r ≡ none)
      × (sql_boolean_evidence w r r first second ≡ none)
      × (nosql_injection_evidence w r r r ≡ none)
      × (path_traversal_evidence w r r ≡ none)
unfolding sql_error_evidence sql_boolean_evidence nosql_injection_evidence path_traversal_evidence
alike-without_evidence w r first second = (
  rw (new_markers_self w _ (w.text r)) refl,
  elim (Bool-cases (is_success r)) [
    | inl e ↦ rw e (boolean_evidence_self w r _)
    | inr e ↦ rw e refl
  ],
  rw (new_markers_self w nosql_error_patterns (w.text r)) (
      rw (exceeds_self w (collection_count w (w.text r)))
        (elim (Bool-cases (is_success r)) [ inl e ↦ rw e refl | inr e ↦ rw e refl ])),
  rw (new_markers_self w _ (w.text r)) refl,
)
