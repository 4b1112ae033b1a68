-- ===== src/Domain/Fingerprint.antt =====
-- When two findings have one fingerprint.
use api_scanner.Common.{◌≡◌, ◌≢◌, ◌↔◌, refl, [], ◌∷◌, ◌++◌, All, arith}
use api_scanner.Common.Text.{Text, join, lower, rstrip}
use api_scanner.Common.Folding.{SameCase, IsTrimmed, lower-eq_iff, upper-eq_iff, rstrip-eq_iff}
use api_scanner.Domain.{
  FindingDraft, or_empty, endpoint_key, method_key, parameter_key, category_key, fingerprint,
}

-- The text does not hold the separator.
abbrev pub NoBar : Text → Type 0
NoBar = All (λ c. c ≢ b'|')

split_at_bar :
    (p q r s : Text) → NoBar p → NoBar q → p ++ (b'|' ∷ r) ≡ q ++ (b'|' ∷ s) → (p ≡ q) × (r ≡ s)
split_at_bar [] [] r s h k e = (refl, ground arith)
split_at_bar [] (y ∷ q) r s h (n, k) e = absurd (n (ground arith))
split_at_bar (x ∷ p) [] r s (n, h) k e = absurd (n (ground arith))
split_at_bar (x ∷ p) (y ∷ q) r s (_, h) (_, k) e =
    let (same, rest) = split_at_bar p q r s h k (ground arith) in (cc (same, e), rest)

-- The two endpoints agree, without the slashes at their ends and up to case.
pub record SameEndpoint (s t : Text) : Type 0 where
  pub left : Text
  pub right : Text
  pub left_trimmed : IsTrimmed b'/' s left
  pub right_trimmed : IsTrimmed b'/' t right
  pub same : SameCase left right

-- The two findings agree on what identifies a finding; what is missing is the empty text.
pub record SameKey (f g : FindingDraft) : Type 0 where
  pub endpoint : SameEndpoint (or_empty f.endpoint) (or_empty g.endpoint)
  pub method : SameCase (or_empty f.method) (or_empty g.method)
  pub parameter : SameCase (or_empty f.parameter) (or_empty g.parameter)
  pub category : SameCase f.category g.category

SameEndpoint_iff : (s t : Text) → (lower (rstrip b'/' s) ≡ lower (rstrip b'/' t)) ↔ SameEndpoint s t
SameEndpoint_iff s t = (
  λ e. record {
    left = rstrip b'/' s;
    right = rstrip b'/' t;
    left_trimmed = (rstrip-eq_iff b'/' s _).0 refl;
    right_trimmed = (rstrip-eq_iff b'/' t _).0 refl;
    same = (lower-eq_iff _ _).0 e;
  },
  λ h. rw ((rstrip-eq_iff b'/' s h.left).1 h.left_trimmed) (
      rw ((rstrip-eq_iff b'/' t h.right).1 h.right_trimmed)
        ((lower-eq_iff h.left h.right).1 h.same)),
)

-- The keys of two findings are the same.
pub record HasKeysOf (f g : FindingDraft) : Type 0 where
  pub endpoint : endpoint_key f ≡ endpoint_key g
  pub method : method_key f ≡ method_key g
  pub parameter : parameter_key f ≡ parameter_key g
  pub category : category_key f ≡ category_key g

HasKeysOf-iff : (f g : FindingDraft) → HasKeysOf f g ↔ SameKey f g
unfolding endpoint_key method_key parameter_key category_key
HasKeysOf-iff f g = (
  λ h. record {
    endpoint = (SameEndpoint_iff _ _).0 h.endpoint;
    method = (upper-eq_iff _ _).0 h.method;
    parameter = (lower-eq_iff _ _).0 h.parameter;
    category = (lower-eq_iff _ _).0 h.category;
  },
  λ s. record {
    endpoint = (SameEndpoint_iff _ _).1 s.endpoint;
    method = (upper-eq_iff _ _).1 s.method;
    parameter = (lower-eq_iff _ _).1 s.parameter;
    category = (lower-eq_iff _ _).1 s.category;
  },
)

-- No bar in the parts before the last.
pub record HasPlainKey (f : FindingDraft) : Type 0 where
  pub endpoint : NoBar (endpoint_key f)
  pub method : NoBar (method_key f)
  pub parameter : NoBar (parameter_key f)

-- For a digest without collisions, and two findings whose endpoint, method and parameter hold no
-- `|`: their fingerprints are equal exactly when they agree on endpoint (without the slashes at its
-- end), method, parameter and category, up to the case of ASCII letters.
pub fingerprint-eq_iff :
    (digest : Text → Text) (f g : FindingDraft)
    → ((a b : Text) → digest a ≡ digest b → a ≡ b)
    → HasPlainKey f
    → HasPlainKey g
    → (fingerprint digest f ≡ fingerprint digest g) ↔ SameKey f g
unfolding fingerprint join
fingerprint-eq_iff digest f g injective pf pg = (
  λ e.
      let (endpoint, e₁) = split_at_bar _ _ _ _ pf.endpoint pg.endpoint (injective _ _ e) in
      let (method, e₂) = split_at_bar _ _ _ _ pf.method pg.method e₁ in
      let (parameter, category) = split_at_bar _ _ _ _ pf.parameter pg.parameter e₂ in
      (HasKeysOf-iff f g).0 (record {
        endpoint = endpoint;
        method = method;
        parameter = parameter;
        category = category;
      }),
  λ s. let k = (HasKeysOf-iff f g).1 s in cc (k.endpoint, k.method, k.parameter, k.category),
)
