-- ===== src/Oast/Laws.antt =====
-- What a poll of the collector tells.
use mathlib.Core.Path.{subst}
use api_scanner.Common.{
  ℕ, ◌+◌, ◌<◌, ◌≡◌, ◌⊎◌, inl, inr, refl, Bool, true, false, ◌||◌, ◌&&◌, Option, none, some, List,
  [], ◌∷◌, arith, any, Bool-cases, leb,
}
use api_scanner.Common.Text.{Text, codes, text_eq, text_eq_sound}
use api_scanner.Oast.{
  Redis, IsRedis, is_token, key_of, is_one, exists, is_authorised, hit, Request, calls, registers,
  polls, callback, register, event, serve, serve_all,
}

one_there : (o : Option Text) → is_one o ≡ true → exists o ≡ true
one_there none h = absurd (ground arith)
one_there (some v) h = refl

module _ (r : Redis) (laws : IsRedis r) (api_key : Text) where
  -- For a Redis that keeps its laws, a valid token and the API key: a token that is registered,
  -- called back within 600 seconds, and polled within 600 seconds of that, is a hit.
  pub event-callback :
      (token : Text) (header : Option Text) (s : r.Store) (start called polled : ℕ)
      → is_token token ≡ true
      → is_authorised api_key header ≡ true
      → called < start + 600
      → polled < called + 600
      → (event r api_key polled token header
          (callback r api_key called token (register r api_key start token header s).1).1).0
        ≡ hit true
  unfolding event callback register text_eq
  event-callback token header s start called polled h k l m = rw h (
      rw k (
        rw (laws.get-set start 600 called (key_of token) (codes "0") s l)
          (rw (laws.get-set called 600 polled (key_of token) (codes "1") _ m) refl)))

  get-set_cases :
      (now ttl t : ℕ) (k v : Text) (s : r.Store)
      → (r.get t k (r.set now ttl k v s) ≡ some v) ⊎ (r.get t k (r.set now ttl k v s) ≡ none)
  get-set_cases now ttl t k v s = elim (Bool-cases (leb (now + ttl) t)) [
    | inl e ↦ inr (laws.get-set_expired now ttl t k v s (ground arith))
    | inr e ↦ inl (laws.get-set now ttl t k v s (ground arith))
  ]

  module _ (token : Text) where
    -- The store has a value for the token only if `reg`, and a hit only if `call`.
    abbrev Sound : Bool → Bool → r.Store → Type 0
    Sound reg call s =
        (t : ℕ)
        → (exists (r.get t (key_of token) s) ≡ true → reg ≡ true)
          × (is_one (r.get t (key_of token) s) ≡ true → call ≡ true)

    set-Sound :
        (reg call reg' call' : Bool) (now : ℕ) (other v : Text) (s : r.Store)
        → Sound reg call s
        → (reg ≡ true → reg' ≡ true)
        → (call ≡ true → call' ≡ true)
        → (text_eq (key_of other) (key_of token) ≡ true
            → (reg' ≡ true) × (is_one (some v) ≡ true → call' ≡ true))
        → Sound reg' call' (r.set now 600 (key_of other) v s)
    set-Sound reg call reg' call' now other v s h f g same t =
        elim (Bool-cases (text_eq (key_of other) (key_of token))) [
          | inr e ↦
              rw (laws.get-set_other now 600 t (key_of other) (key_of token) v s e)
                (λ x. f ((h t).0 x), λ x. g ((h t).1 x))
          | inl e ↦
              rw (text_eq_sound (key_of other) (key_of token) e)
                (elim (get-set_cases now 600 t (key_of token) v s) [
                  | inl w ↦ rw w (λ _. (same e).0, (same e).1)
                  | inr w ↦ rw w (λ x. absurd (ground arith), λ x. absurd (ground arith))
                ])
        ]

    delete-Sound :
        (reg call : Bool) (other : Text) (s : r.Store)
        → Sound reg call s
        → Sound reg call (r.delete (key_of other) s)
    delete-Sound reg call other s h t = elim (Bool-cases (text_eq (key_of other) (key_of token))) [
      | inr e ↦ rw (laws.get-delete_other t (key_of other) (key_of token) s e) (h t)
      | inl e ↦ rw (text_eq_sound (key_of other) (key_of token) e) (
          rw (laws.get-delete t (key_of token) s)
            (λ x. absurd (ground arith), λ x. absurd (ground arith)))
    ]

    -- The request is a callback of the token, or a registration of it with the API key.
    abbrev pub is_call : ℕ × Request r api_key → Bool
    is_call (_, q) = elim q [
      | calls other ↦ text_eq (key_of other) (key_of token)
      | registers _ _ ↦ false
      | polls _ _ ↦ false
    ]

    abbrev pub is_registration : ℕ × Request r api_key → Bool
    is_registration (_, q) = elim q [
      | calls _ ↦ false
      | registers other header ↦
          text_eq (key_of other) (key_of token) && is_authorised api_key header
      | polls _ _ ↦ false
    ]

    serve-Sound :
        (reg call : Bool) (now : ℕ) (q : Request r api_key) (s : r.Store)
        → Sound reg call s
        → Sound
            (is_registration (now, q) || reg)
            (is_call (now, q) || call)
            (serve r api_key now q s).1
    unfolding serve callback register event text_eq
    serve-Sound reg call now (calls other) s h = elim (Bool-cases (is_token other)) [
      | inr e ↦ rw e (weaken s h)
      | inl e ↦ elim (Bool-cases (exists (r.get now (key_of other) s))) [
        | inr f ↦ rw e (rw f (weaken s h))
        | inl f ↦ rw e (
            rw f (
              set-Sound reg call reg (text_eq (key_of other) (key_of token) || call) now other
                (codes "1") s h (λ x. x) (λ x. ground arith)
                (λ same. (
                  (h now).0 (subst (λ k. exists (r.get now k s) ≡ true) (text_eq_sound _ _ same) f),
                  λ _. ground arith,
                ))))
      ]
    ]
      where
        weaken :
            (s : r.Store)
            → Sound reg call s
            → Sound reg (text_eq (key_of other) (key_of token) || call) s
        weaken s h t = ((h t).0, λ x. ground (arith, (h t).1 x))
    serve-Sound reg call now (registers other header) s h =
        elim (Bool-cases (is_authorised api_key header)) [
          | inr e ↦ rw e (λ t. (λ x. ground (arith, (h t).0 x), (h t).1))
          | inl e ↦ elim (Bool-cases (is_token other)) [
            | inr f ↦ rw e (rw f (λ t. (λ x. ground (arith, (h t).0 x), (h t).1)))
            | inl f ↦ rw e (
                rw f (
                  set-Sound reg call (text_eq (key_of other) (key_of token) && true || reg) call now
                    other (codes "0") s h (λ x. ground arith) (λ x. x)
                    (λ same. (ground arith, λ x. absurd (ground arith)))))
          ]
        ]
    serve-Sound reg call now (polls other header) s h =
        elim (Bool-cases (is_authorised api_key header)) [
          | inr e ↦ rw e h
          | inl e ↦ elim (Bool-cases (is_token other)) [
            | inr f ↦ rw e (rw f h)
            | inl f ↦ elim (Bool-cases (is_one (r.get now (key_of other) s))) [
              | inr g ↦ rw e (rw f (rw g h))
              | inl g ↦ rw e (rw f (rw g (delete-Sound reg call other s h)))
            ]
          ]
        ]

    serve_all-Sound :
        (qs : List (ℕ × Request r api_key)) (s : r.Store)
        → Sound false false s
        → Sound (any is_registration qs) (any is_call qs) (serve_all r api_key qs s)
    unfolding serve_all
    serve_all-Sound [] s h = h
    serve_all-Sound ((now, q) ∷ qs) s h =
        serve-Sound (any is_registration qs) (any is_call qs) now q (serve_all r api_key qs s)
          (serve_all-Sound qs s h)

  -- For a Redis that keeps its laws, a store without keys, any sequence of requests and a later poll:
  -- the poll is a hit only if the token was called back and was registered with the API key.
  pub event-IsCalled :
      (token : Text) (header : Option Text) (qs : List (ℕ × Request r api_key)) (now : ℕ)
      (s : r.Store)
      → ((t : ℕ) (k : Text) → r.get t k s ≡ none)
      → (event r api_key now token header (serve_all r api_key qs s)).0 ≡ hit true
      → (any (is_registration token) qs ≡ true) × (any (is_call token) qs ≡ true)
  unfolding event
  event-IsCalled token header qs now s empty h =
      let known =
        serve_all-Sound token qs s (λ t. rw (empty t (key_of token)) (λ x. x, λ x. x)) now in
      let one : is_one (r.get now (key_of token) (serve_all r api_key qs s)) ≡ true =
        ground arith in
      (known.0 (one_there _ one), known.1 one)
