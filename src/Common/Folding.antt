-- ===== src/Common/Folding.antt =====
-- Texts up to the case of their letters, and texts without a character at their end.
use Prim.Native.Nat.{ℕ, ◌+◌, ◌≤◌}
use mathlib.Core.Path.{◌≡◌, refl, ap}
use mathlib.Core.Logic.{◌≢◌, ◌↔◌, ◌⊎◌, inl, inr}
use mathlib.Core.Bool.{◌&&◌}
use mathlib.Core.List.{[], ◌∷◌, ◌++◌}
use native.Mathlib.Omega.{arith}
use api_scanner.Common.Tests.{◌==◌, if◌then◌else◌, Bool-cases}
use api_scanner.Common.Lists.{All, is_empty}
use api_scanner.Common.Text.{Text, lower_code, upper_code, lower, upper, rstrip}

-- One character, or an ASCII letter in its two cases.
abbrev pub SameLetter : ℕ → ℕ → Type 0
SameLetter a b = (a ≡ b) ⊎ ((65 ≤ a) × (a ≤ 90) × (b ≡ a + 32) ⊎ (65 ≤ b) × (b ≤ 90) × (a ≡ b + 32))

abbrev pub SameCase : Text → Text → Type 0
SameCase [] [] = Unit
SameCase (a ∷ s) (b ∷ t) = SameLetter a b × SameCase s t
SameCase _ _ = ⊥

lower_code-eq_iff : (a b : ℕ) → (lower_code a ≡ lower_code b) ↔ SameLetter a b
lower_code-eq_iff a b = (λ h. ground arith, λ h. ground arith)

upper_code-eq_iff : (a b : ℕ) → (upper_code a ≡ upper_code b) ↔ SameLetter a b
upper_code-eq_iff a b = (λ h. ground arith, λ h. ground arith)

pub lower-eq_iff : (s t : Text) → (lower s ≡ lower t) ↔ SameCase s t
unfolding lower
lower-eq_iff [] [] = (λ _. tt, λ _. refl)
lower-eq_iff [] (b ∷ t) = (λ e. cc, λ h. elim h [ ])
lower-eq_iff (a ∷ s) [] = (λ e. cc, λ h. elim h [ ])
lower-eq_iff (a ∷ s) (b ∷ t) =
    let (letter, same) = lower_code-eq_iff a b in
    let (to, from) = lower-eq_iff s t in
    (λ e. (letter (ground arith), to (ground arith)), λ (h, k). cc (same h, from k))

pub upper-eq_iff : (s t : Text) → (upper s ≡ upper t) ↔ SameCase s t
unfolding upper
upper-eq_iff [] [] = (λ _. tt, λ _. refl)
upper-eq_iff [] (b ∷ t) = (λ e. cc, λ h. elim h [ ])
upper-eq_iff (a ∷ s) [] = (λ e. cc, λ h. elim h [ ])
upper-eq_iff (a ∷ s) (b ∷ t) =
    let (letter, same) = upper_code-eq_iff a b in
    let (to, from) = upper-eq_iff s t in
    (λ e. (letter (ground arith), to (ground arith)), λ (h, k). cc (same h, from k))

-- The last character, if there is one, is another.
abbrev pub EndsOther : ℕ → Text → Type 0
EndsOther c [] = Unit
EndsOther c (x ∷ []) = x ≢ c
EndsOther c (x ∷ y ∷ s) = EndsOther c (y ∷ s)

-- The text is `s` and then only the character.
pub record IsTrimmed (c : ℕ) (t s : Text) : Type 0 where
  pub tail : Text
  pub tail_only : All (λ x. x ≡ c) tail
  pub split : t ≡ s ++ tail
  pub ends : EndsOther c s

rstrip-only : (c : ℕ) (s : Text) → All (λ x. x ≡ c) s → rstrip c s ≡ []
unfolding rstrip
rstrip-only c [] h = refl
rstrip-only c (x ∷ s) (e, h) = rw (rstrip-only c s h) (ground arith)

rstrip-append :
    (c : ℕ) (s tail : Text) → All (λ x. x ≡ c) tail → EndsOther c s → rstrip c (s ++ tail) ≡ s
unfolding rstrip
rstrip-append c [] tail h k = rstrip-only c tail h
rstrip-append c (x ∷ []) tail h k = rw (rstrip-only c tail h) (ground arith)
rstrip-append c (x ∷ y ∷ s) tail h k = rw (rstrip-append c (y ∷ s) tail h k) refl

rstrip-IsTrimmed : (c : ℕ) (t : Text) → IsTrimmed c t (rstrip c t)
unfolding rstrip
rstrip-IsTrimmed c [] = record { tail = []; tail_only = tt; split = refl; ends = tt }
rstrip-IsTrimmed c (x ∷ t) = extended (rstrip c t) (rstrip-IsTrimmed c t)
  where
    extended :
        (r : Text)
        → IsTrimmed c t r
        → IsTrimmed c (x ∷ t) (if is_empty r && x == c then [] else x ∷ r)
    extended [] h = elim (Bool-cases (x == c)) [
      | inl e ↦ rw e (record {
        tail = x ∷ h.tail;
        tail_only = (ground arith, h.tail_only);
        split = ap (◌∷◌ x) h.split;
        ends = tt;
      })
      | inr e ↦ rw e (record {
        tail = h.tail;
        tail_only = h.tail_only;
        split = ap (◌∷◌ x) h.split;
        ends = ground arith;
      })
    ]
    extended (y ∷ r) h = record {
      tail = h.tail;
      tail_only = h.tail_only;
      split = ap (◌∷◌ x) h.split;
      ends = h.ends;
    }

pub rstrip-eq_iff : (c : ℕ) (t s : Text) → (rstrip c t ≡ s) ↔ IsTrimmed c t s
rstrip-eq_iff c t s = (
  λ e. rw e at (rstrip-IsTrimmed c t),
  λ h. rw h.split (rstrip-append c s h.tail h.tail_only h.ends),
)
