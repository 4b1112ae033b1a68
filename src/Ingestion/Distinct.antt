-- ===== src/Ingestion/Distinct.antt =====
-- The parameters of an endpoint: no two have one name and location.
use api_scanner.Common.{
  true, false, ◌≡◌, refl, inl, inr, some, List, [], ◌∷◌, ◌++◌, arith, Bool-cases, Option-cases, any,
}
use api_scanner.Common.Text.{text_eq_iff}
use api_scanner.Common.Sorting.{is_in}
use api_scanner.Json.{Json, null, bool, number, str, obj, Fields, arr}
use api_scanner.Ingestion.{Reader, ParameterDefinition, ok, or_crash, >>=-ok_inv}
use api_scanner.Ingestion.References.{resolve}
use api_scanner.Ingestion.Operations.{
  locations, define_parameter, parameter_of, put_parameter, define_dict, define_parameters,
  raw_parameters, parameters, same_key,
}

module _ (r : Reader) (document : Fields) where
  -- A known location, and no other parameter of the list with this name and location.
  abbrev pub AreDistinct : List ParameterDefinition → Type 0
  AreDistinct [] = Unit
  AreDistinct (p ∷ ps) =
      (is_in p.location locations ≡ true)
      × (any (same_key r document p) ps ≡ false)
      × AreDistinct ps

  put_parameter-apart :
      (x p : ParameterDefinition) (qs : List ParameterDefinition)
      → same_key r document x p ≡ false
      → any (same_key r document x) qs ≡ false
      → any (same_key r document x) (put_parameter r document p qs) ≡ false
  unfolding put_parameter
  put_parameter-apart x p [] h k = ground arith
  put_parameter-apart x p (q ∷ qs) h k = ground (arith, put_parameter-apart x p qs h)

  same_key-eq :
      (q p x : ParameterDefinition)
      → same_key r document q p ≡ true
      → same_key r document p x ≡ same_key r document q x
  same_key-eq q p x h =
      let name : q.name ≡ p.name = (text_eq_iff q.name p.name).0 (ground arith) in
      let location : q.location ≡ p.location =
        (text_eq_iff q.location p.location).0 (ground arith) in
      rw name (rw location refl)

  any-same_key :
      (q p : ParameterDefinition) (qs : List ParameterDefinition)
      → same_key r document q p ≡ true
      → any (same_key r document q) qs ≡ false
      → any (same_key r document p) qs ≡ false
  any-same_key q p [] h k = refl
  any-same_key q p (x ∷ qs) h k = ground (arith, same_key-eq q p x h, any-same_key q p qs h)

  put_parameter-distinct :
      (p : ParameterDefinition) (qs : List ParameterDefinition)
      → is_in p.location locations ≡ true
      → AreDistinct qs
      → AreDistinct (put_parameter r document p qs)
  unfolding put_parameter
  put_parameter-distinct p [] l d = (l, refl, tt)
  put_parameter-distinct p (q ∷ qs) l (known, apart, rest) =
      elim (Bool-cases (same_key r document q p)) [
        | inl e ↦ rw e (l, any-same_key q p qs e apart, rest)
        | inr e ↦
            rw e (known, put_parameter-apart q p qs e apart, put_parameter-distinct p qs l rest)
      ]

  define_parameter-known :
      (item : Fields) (p : ParameterDefinition)
      → define_parameter r document item ≡ some p
      → is_in p.location locations ≡ true
  unfolding define_parameter
  define_parameter-known item p h = ground arith

  define_dict-known :
      (item : Json) (p : ParameterDefinition)
      → define_dict r document item ≡ some p
      → is_in p.location locations ≡ true
  define_dict-known (obj item) p h = define_parameter-known item p h
  define_dict-known null p h = cc
  define_dict-known (bool b) p h = cc
  define_dict-known (number n) p h = cc
  define_dict-known (str t) p h = cc
  define_dict-known (arr items) p h = cc

  define_parameters-distinct :
      (by_key : List ParameterDefinition) (values : List Json)
      → AreDistinct by_key
      → AreDistinct (define_parameters r document by_key values)
  unfolding define_parameters
  define_parameters-distinct by_key [] d = d
  define_parameters-distinct by_key (raw ∷ values) d =
      elim (Option-cases (parameter_of r document raw)) [
        | inl e ↦ rw e (define_parameters-distinct by_key values d)
        | inr (p, e) ↦ rw e (
            define_parameters-distinct (put_parameter r document p by_key) values (
              put_parameter-distinct p by_key
                (define_dict-known (resolve r document raw) p (unfold parameter_of in e)) d))
      ]

  pub parameters-distinct :
      (path_item operation : Fields) (ps : List ParameterDefinition)
      → parameters r document path_item operation ≡ ok ps
      → AreDistinct ps
  unfolding parameters
  parameters-distinct path_item operation ps e =
      let (shared, _, e') = >>=-ok_inv (or_crash (raw_parameters r document path_item)) _ e in
      let (own, _, e'') = >>=-ok_inv (or_crash (raw_parameters r document operation)) _ e' in
      let same : define_parameters r document [] (shared ++ own) ≡ ps = cc in
      rw (← same) (define_parameters-distinct [] (shared ++ own) tt)
