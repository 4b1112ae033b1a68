-- ===== src/Runner/Refusal.antt =====
-- Which requests `run` starts a process for.
use api_scanner.Common.{
  ℕ, suc, true, false, not, ◌&&◌, ◌≡◌, ◌↔◌, ◌⊎◌, refl, inl, inr, Option, none, some, List, [], ◌∷◌,
  arith, Bool-cases, All, All-append, All-split, is_empty,
}
use api_scanner.Common.Text.{Text, codes, text_eq, text_eq_iff, text_eq_refl}
use api_scanner.Common.Sorting.{is_in}
use api_scanner.Json.{
  Json, null, bool, number, str, arr, obj, Items, nil, cons, Fields, end, field, get, dicts_in,
  dicts_in_items, dicts_in_fields,
}
use api_scanner.Scope.{Target, ScopeGuard, validate}
use api_scanner.Scope.Client.{Checked-cases}
use api_scanner.Scope.Guard.{Admits, validate_iff}
use api_scanner.Runner.{World, RunRequest, is_authentic}
use api_scanner.Runner.Commands.{fields_or_empty}
use api_scanner.Runner.Rewrite.{is_external, refers_outside, items_outside, fields_outside}
use api_scanner.Runner.Run.{
  nuclei, wfuzz, wuppiefuzz, is_wuppie, first_error, urls_of, request_guard, has_specification,
  refers_elsewhere, refusal,
}

-- The dict has no reference, or one into its own document.
abbrev pub IsLocal : Fields → Type 0
IsLocal fields = is_external (get (codes "$ref") fields) ≡ false

mutual
  unfolding refers_outside dicts_in

  outside-Local : (v : Json) → refers_outside v ≡ false → All IsLocal (dicts_in v)
  outside-Local null h = tt
  outside-Local (bool b) h = tt
  outside-Local (number n) h = tt
  outside-Local (str t) h = tt
  outside-Local (arr items) h = outside_items-Local items h
  outside-Local (obj fields) h = (ground arith, outside_fields-Local fields (ground arith))

  outside_items-Local :
      (items : Items) → items_outside items ≡ false → All IsLocal (dicts_in_items items)
  outside_items-Local nil h = tt
  outside_items-Local (cons v items) h =
      All-append IsLocal _ _ (outside-Local v (ground arith))
        (outside_items-Local items (ground arith))

  outside_fields-Local :
      (fields : Fields) → fields_outside fields ≡ false → All IsLocal (dicts_in_fields fields)
  outside_fields-Local end h = tt
  outside_fields-Local (field k v fields) h =
      All-append IsLocal _ _ (outside-Local v (ground arith))
        (outside_fields-Local fields (ground arith))

mutual
  unfolding refers_outside dicts_in

  Local-outside : (v : Json) → All IsLocal (dicts_in v) → refers_outside v ≡ false
  Local-outside null h = refl
  Local-outside (bool b) h = refl
  Local-outside (number n) h = refl
  Local-outside (str t) h = refl
  Local-outside (arr items) h = Local-outside_items items h
  Local-outside (obj fields) (h, hs) = rw h (Local-outside_fields fields hs)

  Local-outside_items :
      (items : Items) → All IsLocal (dicts_in_items items) → items_outside items ≡ false
  Local-outside_items nil h = refl
  Local-outside_items (cons v items) h =
      let (first, rest) = All-split IsLocal (dicts_in v) (dicts_in_items items) h in
      rw (Local-outside v first) (Local-outside_items items rest)

  Local-outside_fields :
      (fields : Fields) → All IsLocal (dicts_in_fields fields) → fields_outside fields ≡ false
  Local-outside_fields end h = refl
  Local-outside_fields (field k v fields) h =
      let (first, rest) = All-split IsLocal (dicts_in v) (dicts_in_fields fields) h in
      rw (Local-outside v first) (Local-outside_fields fields rest)

-- The URLs, from a moment on, that the guard admits.
abbrev pub AllAdmitted : World → ScopeGuard → ℕ → List Text → Type 0
AllAdmitted w guard now [] = Unit
AllAdmitted w guard now (url ∷ urls) =
    ((target : Target) × Admits w.resolver guard now url target)
    × AllAdmitted w guard (suc now) urls

first_error-none :
    (w : World) (guard : ScopeGuard) (now : ℕ) (urls : List Text)
    → (first_error w guard now urls ≡ none) ↔ AllAdmitted w guard now urls
unfolding first_error
first_error-none w guard now [] = (λ _. tt, λ _. refl)
first_error-none w guard now (url ∷ urls) =
    let (there, back) = first_error-none w guard (suc now) urls in
    elim (Checked-cases (validate w.resolver guard now url)) [
      | inl (e, h) ↦
          rw (h, first_error)
            (
              λ c. cc,
              λ ((target, a), _). cc (h, (validate_iff w.resolver guard now url target).1 a),
            )
      | inr (target, h) ↦
          rw (h, first_error)
            (
              λ c. ((target, (validate_iff w.resolver guard now url target).0 h), there c),
              λ (_, rest). back rest,
            )
    ]

-- A request that a process is started for.
pub record IsStartable (w : World) (now : ℕ) (request : RunRequest) (token : Option Text)
    : Type 0 where
  pub secret : is_empty w.runner_token ≡ false
  pub authentic : token ≡ some w.runner_token
  pub engine : (w.engine ≡ nuclei) ⊎ ((w.engine ≡ wfuzz) ⊎ (w.engine ≡ wuppiefuzz))
  pub admitted : AllAdmitted w (request_guard w request) now (urls_of w request)
  pub specified : w.engine ≡ wuppiefuzz → has_specification w request ≡ true
  pub local :
      w.engine ≡ wuppiefuzz → All IsLocal (dicts_in (obj (fields_or_empty request.specification)))

text_eq-nil : (t : Text) → text_eq t [] ≡ is_empty t
unfolding text_eq
text_eq-nil [] = refl
text_eq-nil (c ∷ t) = refl

is_authentic_iff :
    (w : World) (token : Option Text)
    → (is_authentic w token ≡ true)
      ↔ ((is_empty w.runner_token ≡ false) × (token ≡ some w.runner_token))
unfolding is_authentic
is_authentic_iff w none = (λ h. ground arith, λ h. cc)
is_authentic_iff w (some t) = (
  λ h. (ground (arith, text_eq-nil w.runner_token), ground (arith, text_eq_iff w.runner_token t)),
  λ (set, same).
      let e : t ≡ w.runner_token = cc in rw e (rw text_eq-nil (rw (set, text_eq_refl) refl)),
)

known_engine_iff :
    (engine : Text)
    → (is_in engine (nuclei ∷ wfuzz ∷ wuppiefuzz ∷ []) ≡ true)
      ↔ ((engine ≡ nuclei) ⊎ ((engine ≡ wfuzz) ⊎ (engine ≡ wuppiefuzz)))
known_engine_iff engine = (to, from)
  where
    to :
        is_in engine (nuclei ∷ wfuzz ∷ wuppiefuzz ∷ []) ≡ true
        → (engine ≡ nuclei) ⊎ ((engine ≡ wfuzz) ⊎ (engine ≡ wuppiefuzz))
    to h = elim (Bool-cases (text_eq engine nuclei)) [
      | inl e ↦ inl ((text_eq_iff engine nuclei).0 e)
      | inr e ↦ elim (Bool-cases (text_eq engine wfuzz)) [
        | inl f ↦ inr (inl ((text_eq_iff engine wfuzz).0 f))
        | inr f ↦ inr (inr ((text_eq_iff engine wuppiefuzz).0 (ground arith)))
      ]
    ]

    from :
        (engine ≡ nuclei) ⊎ ((engine ≡ wfuzz) ⊎ (engine ≡ wuppiefuzz))
        → is_in engine (nuclei ∷ wfuzz ∷ wuppiefuzz ∷ []) ≡ true
    from (inl e) = let same = (text_eq_iff engine nuclei).1 e in ground arith
    from (inr (inl e)) = let same = (text_eq_iff engine wfuzz).1 e in ground arith
    from (inr (inr e)) = let same = (text_eq_iff engine wuppiefuzz).1 e in ground arith

-- The tests of `refusal`, all passed.
record Passes (w : World) (now : ℕ) (request : RunRequest) (token : Option Text) : Type 0 where
  authentic : is_authentic w token ≡ true
  engine : is_in w.engine (nuclei ∷ wfuzz ∷ wuppiefuzz ∷ []) ≡ true
  admitted : first_error w (request_guard w request) now (urls_of w request) ≡ none
  specified : is_wuppie w && not (has_specification w request) ≡ false
  local : is_wuppie w && refers_elsewhere request ≡ false

refusal-Passes :
    (w : World) (now : ℕ) (request : RunRequest) (token : Option Text)
    → refusal w now request token ≡ none
    → Passes w now request token
unfolding refusal
refusal-Passes w now request token h = ground arith

Passes-refusal :
    (w : World) (now : ℕ) (request : RunRequest) (token : Option Text)
    → Passes w now request token
    → refusal w now request token ≡ none
unfolding refusal
Passes-refusal w now request token p = ground arith

-- For every runner, moment, request and token: `run` has no reason to refuse exactly if a runner
-- token is set and the request shows it, the engine is one of the three, the guard of the request's
-- hosts admits the target URL and each base URL of the endpoints, and, for WuppieFuzz, there is a
-- specification of OpenAPI or Swagger 2.0 no dict of which, at whatever depth, refers outside it.
pub refusal-none_iff :
    (w : World) (now : ℕ) (request : RunRequest) (token : Option Text)
    → (refusal w now request token ≡ none) ↔ IsStartable w now request token
refusal-none_iff w now request token = (
  λ h.
      let p = refusal-Passes w now request token h in
      let (secret, shown) = (is_authentic_iff w token).0 p.authentic in
      record {
        secret = secret;
        authentic = shown;
        engine = (known_engine_iff w.engine).0 p.engine;
        admitted =
            (first_error-none w (request_guard w request) now (urls_of w request)).0 p.admitted;
        specified = λ e.
            let wuppie = (text_eq_iff w.engine wuppiefuzz).1 e in
            let s = p.specified in ground arith;
        local = λ e.
            let wuppie = (text_eq_iff w.engine wuppiefuzz).1 e in
            outside-Local (obj (fields_or_empty request.specification))
              (let l = p.local in ground arith);
      },
  λ s. Passes-refusal w now request token (record {
    authentic = (is_authentic_iff w token).1 (s.secret, s.authentic);
    engine = (known_engine_iff w.engine).1 s.engine;
    admitted = (first_error-none w (request_guard w request) now (urls_of w request)).1 s.admitted;
    specified = elim (Bool-cases (is_wuppie w)) [
      | inl e ↦ rw e (rw (s.specified ((text_eq_iff w.engine wuppiefuzz).0 e)) refl)
      | inr e ↦ rw e refl
    ];
    local = elim (Bool-cases (is_wuppie w)) [
      | inl e ↦ rw e (Local-outside _ (s.local ((text_eq_iff w.engine wuppiefuzz).0 e)))
      | inr e ↦ rw e refl
    ];
  }),
)
