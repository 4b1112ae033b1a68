-- ===== src/Scope/Hosts.antt =====
-- Which hosts a rule of the allowlist covers.
use api_scanner.Common.{
  true, false, not, ◌&&◌, ◌≡◌, ◌↔◌, refl, ap, ◌∷◌, ◌++◌, length, length-append, arith, Bool-cases,
  inl, inr, drop,
}
use api_scanner.Common.Text.{
  Text, text_eq, text_eq_iff, text_eq_sound, starts_with, starts_with_sound, starts_with-append,
  ends_with, ends_with_sound, ends_with-append,
}
use api_scanner.Scope.{wildcard, normalise, matches_normalised, host_matches}

-- A rule without a wildcard covers itself; `*.d` covers the names that end in `.d`.
pub data Covers : Text → Text → Type 0 where
  exact : {host rule : Text} → starts_with wildcard rule ≡ false → host ≡ rule → Covers rule host
  below :
      {host rule : Text} (domain labels : Text)
      → rule ≡ b'*' ∷ b'.' ∷ domain
      → host ≡ labels ++ (b'.' ∷ domain)
      → Covers rule host

longer : (p d : Text) → text_eq (p ++ (b'.' ∷ d)) d ≡ false
longer p d = elim (Bool-cases (text_eq (p ++ (b'.' ∷ d)) d)) [
  | inl e ↦
      absurd
        (omega (arith, ap length (text_eq_sound (p ++ (b'.' ∷ d)) d e), length-append p (b'.' ∷ d)))
  | inr e ↦ e
]

-- The branch of a rule that is known to be a wildcard.
Covers-below :
    (host domain : Text)
    → ends_with (b'.' ∷ domain) host && not (text_eq host domain) ≡ true
    → Covers (b'*' ∷ b'.' ∷ domain) host
Covers-below host domain h =
    let (labels, e) = ends_with_sound (b'.' ∷ domain) host (ground arith) in
    below domain labels refl e

Covers-of_matches : (host rule : Text) → matches_normalised host rule ≡ true → Covers rule host
unfolding matches_normalised
Covers-of_matches host rule h = elim (Bool-cases (starts_with wildcard rule)) [
  | inl w ↦
      let (domain, e) = starts_with_sound wildcard rule w in
      let t : ends_with (drop 1 rule) host && not (text_eq host (drop 2 rule)) ≡ true = rw w at h in
      rw e (Covers-below host domain (rw e at t))
  | inr w ↦ exact w (text_eq_sound host rule (rw w at h))
]

matches_of_Covers : (host rule : Text) → Covers rule host → matches_normalised host rule ≡ true
unfolding matches_normalised
matches_of_Covers host rule (exact w e) = rw w (rw e ((text_eq_iff rule rule).1 refl))
matches_of_Covers host rule (below domain labels r e) = rw r (
    rw (starts_with-append wildcard domain)
      (rw e (ground (arith, ends_with-append labels (b'.' ∷ domain), longer labels domain))))

-- For every host and rule: the test of the allowlist passes exactly when the rule, both sides in
-- lower case and without trailing dots, is the host itself, or is `*.d` and the host ends in `.d`.
pub host_matches_iff :
    (host rule : Text) → (host_matches host rule ≡ true) ↔ Covers (normalise rule) (normalise host)
unfolding host_matches
host_matches_iff host rule = (
  Covers-of_matches (normalise host) (normalise rule),
  matches_of_Covers (normalise host) (normalise rule),
)
