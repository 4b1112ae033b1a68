-- ===== src/Correlation/Groups.antt =====
-- The groups: one for each fingerprint, and every finding in the group of its own.
use mathlib.Core.List.{Perm, perm_middle, append_assoc, append-nil}
use mathlib.Core.List.Perm
use api_scanner.Common.{
  ◌||◌, ◌≡◌, refl, ◌∙◌, List, [], ◌∷◌, ◌++◌, map, arith, Bool-cases, inl, inr, All, All-append,
  collect,
}
use api_scanner.Common.Text.{Text, text_eq, text_eq_iff}
use api_scanner.Common.Sorting.{is_in}
use api_scanner.Common.Keyed.{IsUnique}
use api_scanner.Domain.{FindingDraft, fingerprint}
use api_scanner.Correlation.{Group, members, add_to, group_from}

abbrev pub keys : List Group → List Text
keys = map (λ g. g.key)

is_in-add_to :
    (k key : Text) (f : FindingDraft) (gs : List Group)
    → is_in k (keys (add_to key f gs)) ≡ (is_in k (keys gs) || text_eq k key)
unfolding add_to
is_in-add_to k key f [] = ground arith
is_in-add_to k key f (g ∷ gs) = elim (Bool-cases (text_eq key g.key)) [
  | inl e ↦ rw (e, add_to) (rw ((text_eq_iff key g.key).0 e) (ground arith))
  | inr e ↦ rw (e, add_to) (ground (arith, is_in-add_to k key f gs))
]

add_to-IsUnique :
    (key : Text) (f : FindingDraft) (gs : List Group)
    → IsUnique (keys gs)
    → IsUnique (keys (add_to key f gs))
unfolding add_to
add_to-IsUnique key f [] u = (refl, tt)
add_to-IsUnique key f (g ∷ gs) (v, u) = elim (Bool-cases (text_eq key g.key)) [
  | inl e ↦ rw (e, add_to) (v, u)
  | inr e ↦
      rw (e, add_to)
        (
          is_in-add_to g.key key f gs
              ∙ (ground (arith, text_eq_iff key g.key, text_eq_iff g.key key)),
          add_to-IsUnique key f gs u,
        )
]

-- The key of a group is the fingerprint of each member.
abbrev pub IsKeyed : (Text → Text) → Group → Type 0
IsKeyed digest g = All (λ f. fingerprint digest f ≡ g.key) (members g)

add_to-IsKeyed :
    (digest : Text → Text) (f : FindingDraft) (gs : List Group)
    → All (IsKeyed digest) gs
    → All (IsKeyed digest) (add_to (fingerprint digest f) f gs)
unfolding add_to
add_to-IsKeyed digest f [] h = ((refl, tt), tt)
add_to-IsKeyed digest f (g ∷ gs) ((p, q), h) =
    elim (Bool-cases (text_eq (fingerprint digest f) g.key)) [
      | inl e ↦
          rw (e, add_to)
            (
              (
                p,
                All-append (λ x. fingerprint digest x ≡ g.key) g.rest (f ∷ []) q
                    ((text_eq_iff (fingerprint digest f) g.key).0 e, tt),
              ),
              h,
            )
      | inr e ↦ rw (e, add_to) ((p, q), add_to-IsKeyed digest f gs h)
    ]

-- Adding a finding adds it to the members, and changes no other.
add_to-perm :
    (key : Text) (f : FindingDraft) (gs : List Group)
    → Perm (collect members (add_to key f gs)) (f ∷ collect members gs)
unfolding add_to
add_to-perm key f [] = Perm.refl _
add_to-perm key f (g ∷ gs) = elim (Bool-cases (text_eq key g.key)) [
  | inl e ↦
      rw (e, add_to)
        (rw (append_assoc g.rest (f ∷ []) (collect members gs))
          (perm_middle (members g) (collect members gs)))
  | inr e ↦
      rw (e, add_to)
        (Perm.trans (Perm.append (Perm.refl (members g)) (add_to-perm key f gs))
          (perm_middle (members g) (collect members gs)))
]

pub record IsGrouped (digest : Text → Text) (groups : List Group) (findings : List FindingDraft)
    : Type 0 where
  pub unique : IsUnique (keys groups)
  pub keyed : All (IsKeyed digest) groups
  pub all_there : Perm (collect members groups) findings

group_from-perm :
    (digest : Text → Text) (groups : List Group) (fs : List FindingDraft)
    → Perm (collect members (group_from digest groups fs)) (collect members groups ++ fs)
unfolding group_from
group_from-perm digest groups [] = rw append-nil (Perm.refl _)
group_from-perm digest groups (f ∷ fs) =
    Perm.trans (group_from-perm digest (add_to (fingerprint digest f) f groups) fs) (
      Perm.trans (Perm.append (add_to-perm (fingerprint digest f) f groups) (Perm.refl fs))
        (Perm.symm (perm_middle (collect members groups) fs)))

group_from-IsUnique :
    (digest : Text → Text) (groups : List Group) (fs : List FindingDraft)
    → IsUnique (keys groups)
    → IsUnique (keys (group_from digest groups fs))
unfolding group_from
group_from-IsUnique digest groups [] u = u
group_from-IsUnique digest groups (f ∷ fs) u =
    group_from-IsUnique digest (add_to (fingerprint digest f) f groups) fs
      (add_to-IsUnique (fingerprint digest f) f groups u)

group_from-IsKeyed :
    (digest : Text → Text) (groups : List Group) (fs : List FindingDraft)
    → All (IsKeyed digest) groups
    → All (IsKeyed digest) (group_from digest groups fs)
unfolding group_from
group_from-IsKeyed digest groups [] h = h
group_from-IsKeyed digest groups (f ∷ fs) h =
    group_from-IsKeyed digest (add_to (fingerprint digest f) f groups) fs
      (add_to-IsKeyed digest f groups h)

-- What the loop over the findings leaves in the dict.
pub group_from-IsGrouped :
    (digest : Text → Text) (fs : List FindingDraft) → IsGrouped digest (group_from digest [] fs) fs
group_from-IsGrouped digest fs = record {
  unique = group_from-IsUnique digest [] fs tt;
  keyed = group_from-IsKeyed digest [] fs tt;
  all_there = group_from-perm digest [] fs;
}
