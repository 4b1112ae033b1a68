-- ===== src/Common/Text.antt =====
-- Texts as lists of code points, with the `str` methods that the program calls. Case folding is
-- that of ASCII, which is exact for host names (they are IDNA-encoded first), HTTP methods, enum
-- words and identifiers; `lower` and `upper` leave other code points alone.
use Prim.Native.Nat.{ℕ, zero, suc, ◌+◌, ◌-◌}
use Prim.Native.Char.{code}
use Prim.Native.String.{String}
use mathlib.Core.Path.{◌≡◌, refl, sym, ap}
use mathlib.Core.Logic.{◌↔◌, inl, inr}
use mathlib.Core.Bool.{Bool, true, false, ◌&&◌, ◌||◌}
use mathlib.Core.List.{List, [], ◌∷◌, ◌++◌}
use native.Mathlib.Omega.{arith}
use api_scanner.Common.Tests.{◌==◌, leb, if◌then◌else◌, Bool-cases}
use api_scanner.Common.Lists.{is_empty, length}

abbrev pub Text : Type 0
Text = List ℕ

abbrev pub codes : String → Text
codes String.[] = []
codes (String.◌∷◌ c s) = code c ∷ codes s

-- a == b
unfoldable pub text_eq : Text → Text → Bool
text_eq [] [] = true
text_eq (x ∷ xs) (y ∷ ys) = x == y && text_eq xs ys
text_eq _ _ = false

pub text_eq_sound : (a b : Text) → text_eq a b ≡ true → a ≡ b
unfolding text_eq
text_eq_sound [] [] h = refl
text_eq_sound (x ∷ xs) (y ∷ ys) h = ground (arith, text_eq_sound xs ys)
text_eq_sound [] (y ∷ ys) h = cc
text_eq_sound (x ∷ xs) [] h = cc

pub text_eq_refl : (a : Text) → text_eq a a ≡ true
unfolding text_eq
text_eq_refl [] = refl
text_eq_refl (x ∷ xs) = ground (arith, text_eq_refl xs)

pub text_eq_iff : (a b : Text) → (text_eq a b ≡ true) ↔ (a ≡ b)
text_eq_iff a b = (text_eq_sound a b, λ e. rw e (text_eq_refl b))

-- s.startswith(p)
unfoldable pub starts_with : Text → Text → Bool
starts_with [] s = true
starts_with (p ∷ ps) [] = false
starts_with (p ∷ ps) (c ∷ s) = p == c && starts_with ps s

pub starts_with_sound : (p s : Text) → starts_with p s ≡ true → (r : Text) × (s ≡ p ++ r)
unfolding starts_with
starts_with_sound [] s h = (s, refl)
starts_with_sound (p ∷ ps) [] h = cc
starts_with_sound (p ∷ ps) (c ∷ s) h =
    let (r, e) = starts_with_sound ps s (ground arith) in (r, ground (arith, e))

pub starts_with-append : (p r : Text) → starts_with p (p ++ r) ≡ true
unfolding starts_with
starts_with-append [] r = refl
starts_with-append (p ∷ ps) r = ground (arith, starts_with-append ps r)

-- s.endswith(p)
unfoldable pub ends_with : Text → Text → Bool
ends_with p [] = text_eq p []
ends_with p (c ∷ s) = text_eq p (c ∷ s) || ends_with p s

pub ends_with_sound : (p s : Text) → ends_with p s ≡ true → (q : Text) × (s ≡ q ++ p)
unfolding ends_with
ends_with_sound p [] h = ([], sym (text_eq_sound p [] h))
ends_with_sound p (c ∷ s) h = elim (Bool-cases (text_eq p (c ∷ s))) [
  | inl same ↦ ([], sym (text_eq_sound p (c ∷ s) same))
  | inr other ↦ let (q, e) = ends_with_sound p s (rw other at h) in (c ∷ q, ap (◌∷◌ c) e)
]

pub ends_with-append : (q p : Text) → ends_with p (q ++ p) ≡ true
unfolding ends_with
ends_with-append [] [] = text_eq_refl []
ends_with-append [] (c ∷ p) = ground (arith, text_eq_refl (c ∷ p))
ends_with-append (c ∷ q) p = ground (arith, ends_with-append q p)

-- s.rstrip(c) for one character c
unfoldable pub rstrip : ℕ → Text → Text
rstrip c [] = []
rstrip c (x ∷ xs) = let r = rstrip c xs in if is_empty r && x == c then [] else x ∷ r

-- s.lstrip(c) for one character c
unfoldable pub lstrip : ℕ → Text → Text
lstrip c [] = []
lstrip c (x ∷ xs) = let r = lstrip c xs in if x == c then r else x ∷ xs

abbrev pub lower_code : ℕ → ℕ
lower_code c = if leb b'A' c && leb c b'Z' then c + 32 else c

abbrev pub upper_code : ℕ → ℕ
upper_code c = if leb b'a' c && leb c b'z' then c - 32 else c

-- s.lower()
unfoldable pub lower : Text → Text
lower [] = []
lower (c ∷ s) = lower_code c ∷ lower s

-- s.upper()
unfoldable pub upper : Text → Text
upper [] = []
upper (c ∷ s) = upper_code c ∷ upper s

-- sep.join(parts) for one separator
unfoldable pub join : Text → List Text → Text
join sep [] = []
join sep (p ∷ []) = p
join sep (p ∷ q ∷ ps) = p ++ (sep ++ join sep (q ∷ ps))

-- s.split(c, 1)[0]
unfoldable pub before : ℕ → Text → Text
before c [] = []
before c (x ∷ xs) = if x == c then [] else x ∷ before c xs

-- s.replace(old, new) for a non-empty `old`, from left to right: `skip` code points of a match are
-- still to be dropped.
unfoldable pub replace_from : Text → Text → ℕ → Text → Text
replace_from old new skip [] = []
replace_from old new (suc skip) (c ∷ s) = replace_from old new skip s
replace_from old new zero (c ∷ s) =
    let replaced = new ++ replace_from old new (length old - 1) s in
    let kept = c ∷ replace_from old new zero s in if starts_with old (c ∷ s) then replaced else kept

unfoldable pub replace : Text → Text → Text → Text
unfolding replace_from
replace old new s = replace_from old new 0 s

-- p in s
unfoldable pub occurs : Text → Text → Bool
occurs p [] = is_empty p
occurs p (c ∷ s) = starts_with p (c ∷ s) || occurs p s

pub lower-lower : (s : Text) → lower (lower s) ≡ lower s
unfolding lower
lower-lower [] = refl
lower-lower (c ∷ s) = ground (arith, lower-lower s)

pub upper-upper : (s : Text) → upper (upper s) ≡ upper s
unfolding upper
upper-upper [] = refl
upper-upper (c ∷ s) = ground (arith, upper-upper s)

pub lower-upper : (s : Text) → lower (upper s) ≡ lower s
unfolding lower upper
lower-upper [] = refl
lower-upper (c ∷ s) = ground (arith, lower-upper s)

pub rstrip-rstrip : (c : ℕ) (s : Text) → rstrip c (rstrip c s) ≡ rstrip c s
unfolding rstrip
rstrip-rstrip c [] = refl
rstrip-rstrip c (x ∷ xs) = elim (Bool-cases (is_empty (rstrip c xs) && x == c)) [
  | inl e ↦ rw e refl
  | inr e ↦ rw e (rw (rstrip-rstrip c xs) (rw e refl))
]

-- str.isspace of one character, in Latin-1
abbrev pub is_blank : ℕ → Bool
is_blank c =
    c == 32 || ((leb 9 c && leb c 13) || ((leb 28 c && leb c 31) || (c == 133 || c == 160)))

abbrev lstrip_blank : Text → Text
lstrip_blank [] = []
lstrip_blank (c ∷ s) = if is_blank c then lstrip_blank s else c ∷ s

abbrev rstrip_blank : Text → Text
rstrip_blank [] = []
rstrip_blank (c ∷ s) = let r = rstrip_blank s in if is_empty r && is_blank c then [] else c ∷ r

-- s.strip()
unfoldable pub strip : Text → Text
strip s = lstrip_blank (rstrip_blank s)

-- s.split(c) for one character c
abbrev extend_first : ℕ → List Text → List Text
extend_first x [] = (x ∷ []) ∷ []
extend_first x (part ∷ parts) = (x ∷ part) ∷ parts

unfoldable pub split : ℕ → Text → List Text
split c [] = [] ∷ []
split c (x ∷ xs) = let parts = split c xs in if x == c then [] ∷ parts else extend_first x parts
