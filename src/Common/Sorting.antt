-- ===== src/Common/Sorting.antt =====
-- Python's `sorted`: stable insertion by a Boolean order, and sorted sets of texts.
use mathlib.Core.Path.{◌≡◌, refl}
use mathlib.Core.Logic.{inl, inr}
use mathlib.Core.Bool.{Bool, true, false, ◌&&◌, ◌||◌}
use mathlib.Core.List.{List, [], ◌∷◌, Perm}
use mathlib.Core.List.Perm
use native.Mathlib.Omega.{arith}
use api_scanner.Common.Tests.{ltb, ◌==◌, if◌then◌else◌, Bool-cases}
use api_scanner.Common.Lists.{All, any}
use api_scanner.Common.Text.{Text, text_eq, text_eq_sound, text_eq_refl}

module _ {ℓ} {A : Type ℓ} (precedes : A → A → Bool) where
  unfoldable pub insert_by : A → List A → List A
  insert_by x [] = x ∷ []
  insert_by x (y ∷ ys) = let rest = insert_by x ys in if precedes x y then x ∷ y ∷ ys else y ∷ rest

  -- sorted(xs), where `precedes x y` says that `x` may stand before a later `y`
  unfoldable pub sort_by : List A → List A
  unfolding insert_by
  sort_by [] = []
  sort_by (x ∷ xs) = insert_by x (sort_by xs)

  -- Every item may stand before every later one.
  abbrev pub IsSorted : List A → Type 0
  IsSorted [] = Unit
  IsSorted (x ∷ xs) = All (λ y. precedes x y ≡ true) xs × IsSorted xs

  insert_by-perm : (x : A) (ys : List A) → Perm (insert_by x ys) (x ∷ ys)
  unfolding insert_by
  insert_by-perm x [] = Perm.refl _
  insert_by-perm x (y ∷ ys) = elim (Bool-cases (precedes x y)) [
    | inl e ↦ rw e (Perm.refl _)
    | inr e ↦ rw e (Perm.trans (Perm.cons y (insert_by-perm x ys)) (Perm.swap x y ys))
  ]

  pub sort_by-perm : (xs : List A) → Perm (sort_by xs) xs
  unfolding sort_by
  sort_by-perm [] = Perm.refl []
  sort_by-perm (x ∷ xs) = Perm.trans (insert_by-perm x (sort_by xs)) (Perm.cons x (sort_by-perm xs))

  insert_by-All : (P : A → Type 0) (x : A) (ys : List A) → P x → All P ys → All P (insert_by x ys)
  unfolding insert_by
  insert_by-All P x [] p h = (p, tt)
  insert_by-All P x (y ∷ ys) p (q, h) = elim (Bool-cases (precedes x y)) [
    | inl e ↦ rw e (p, (q, h))
    | inr e ↦ rw e (q, insert_by-All P x ys p h)
  ]

  pub sort_by-All : (P : A → Type 0) (xs : List A) → All P xs → All P (sort_by xs)
  unfolding sort_by
  sort_by-All P [] h = h
  sort_by-All P (x ∷ xs) (p, h) = insert_by-All P x (sort_by xs) p (sort_by-All P xs h)

  module _ (total : (x y : A) → precedes x y ≡ false → precedes y x ≡ true)
      (trans : (x y z : A) → precedes x y ≡ true → precedes y z ≡ true → precedes x z ≡ true) where
    weaken :
        (x y : A) (zs : List A)
        → precedes x y ≡ true
        → All (λ z. precedes y z ≡ true) zs
        → All (λ z. precedes x z ≡ true) zs
    weaken x y [] h k = k
    weaken x y (z ∷ zs) h (p, k) = (trans x y z h p, weaken x y zs h k)

    insert_by-IsSorted : (x : A) (ys : List A) → IsSorted ys → IsSorted (insert_by x ys)
    unfolding insert_by
    insert_by-IsSorted x [] h = (tt, tt)
    insert_by-IsSorted x (y ∷ ys) (p, h) = elim (Bool-cases (precedes x y)) [
      | inl e ↦ rw e ((e, weaken x y ys e p), (p, h))
      | inr e ↦ rw e (insert_by-All _ x ys (total x y e) p, insert_by-IsSorted x ys h)
    ]

    pub sort_by-IsSorted : (xs : List A) → IsSorted (sort_by xs)
    unfolding sort_by
    sort_by-IsSorted [] = tt
    sort_by-IsSorted (x ∷ xs) = insert_by-IsSorted x (sort_by xs) (sort_by-IsSorted xs)

-- a < b, by code points
unfoldable pub text_ltb : Text → Text → Bool
text_ltb [] [] = false
text_ltb [] (y ∷ ys) = true
text_ltb (x ∷ xs) [] = false
text_ltb (x ∷ xs) (y ∷ ys) = ltb x y || (x == y && text_ltb xs ys)

pub text_ltb_trans :
    (a b c : Text) → text_ltb a b ≡ true → text_ltb b c ≡ true → text_ltb a c ≡ true
unfolding text_ltb
text_ltb_trans [] [] c h k = cc
text_ltb_trans [] (y ∷ b) [] h k = cc
text_ltb_trans [] (y ∷ b) (z ∷ c) h k = refl
text_ltb_trans (x ∷ a) [] c h k = cc
text_ltb_trans (x ∷ a) (y ∷ b) [] h k = cc
text_ltb_trans (x ∷ a) (y ∷ b) (z ∷ c) h k = ground (arith, text_ltb_trans a b c)

pub text_ltb_connex :
    (a b : Text) → text_eq a b ≡ false → text_ltb a b ≡ false → text_ltb b a ≡ true
unfolding text_ltb text_eq
text_ltb_connex [] [] h k = cc
text_ltb_connex [] (y ∷ b) h k = cc
text_ltb_connex (x ∷ a) [] h k = refl
text_ltb_connex (x ∷ a) (y ∷ b) h k = ground (arith, text_ltb_connex a b)

-- x in xs
abbrev pub is_in : Text → List Text → Bool
is_in x xs = any (text_eq x) xs

insert_new : Text → List Text → List Text
insert_new x [] = x ∷ []
insert_new x (y ∷ ys) =
    let rest = insert_new x ys in
    if text_eq x y then y ∷ ys else if text_ltb x y then x ∷ y ∷ ys else y ∷ rest

-- sorted(set(xs))
unfoldable pub sorted_set : List Text → List Text
unfolding insert_new
sorted_set [] = []
sorted_set (x ∷ xs) = insert_new x (sorted_set xs)

-- Each text is smaller than every later one, so none is there twice.
abbrev pub IsAscending : List Text → Type 0
IsAscending = IsSorted text_ltb

is_in-insert_new :
    (a x : Text) (ys : List Text) → is_in a (insert_new x ys) ≡ (text_eq a x || is_in a ys)
unfolding insert_new
is_in-insert_new a x [] = refl
is_in-insert_new a x (y ∷ ys) = elim (Bool-cases (text_eq x y)) [
  | inl e ↦ rw (text_eq_sound x y e) (rw (text_eq_refl y) (ground arith))
  | inr e ↦ rw e (ground (arith, is_in-insert_new a x ys))
]

-- The sorted set has the members of the list.
pub is_in-sorted_set : (a : Text) (xs : List Text) → is_in a (sorted_set xs) ≡ is_in a xs
unfolding sorted_set
is_in-sorted_set a [] = refl
is_in-sorted_set a (x ∷ xs) =
    rw (is_in-insert_new a x (sorted_set xs)) (rw (is_in-sorted_set a xs) refl)

insert_new-All :
    (P : Text → Type 0) (x : Text) (ys : List Text) → P x → All P ys → All P (insert_new x ys)
unfolding insert_new
insert_new-All P x [] p h = (p, tt)
insert_new-All P x (y ∷ ys) p (q, h) = ground (arith, insert_new-All P x ys p h)

pub sorted_set-All : (P : Text → Type 0) (xs : List Text) → All P xs → All P (sorted_set xs)
unfolding sorted_set
sorted_set-All P [] h = h
sorted_set-All P (x ∷ xs) (p, h) = insert_new-All P x (sorted_set xs) p (sorted_set-All P xs h)

below-All :
    (x y : Text) (zs : List Text)
    → text_ltb x y ≡ true
    → All (λ z. text_ltb y z ≡ true) zs
    → All (λ z. text_ltb x z ≡ true) zs
below-All x y [] h k = k
below-All x y (z ∷ zs) h (p, k) = (text_ltb_trans x y z h p, below-All x y zs h k)

insert_new-IsAscending :
    (x : Text) (ys : List Text) → IsAscending ys → IsAscending (insert_new x ys)
unfolding insert_new
insert_new-IsAscending x [] h = (tt, tt)
insert_new-IsAscending x (y ∷ ys) (p, h) = elim (Bool-cases (text_eq x y)) [
  | inl e ↦ rw e (p, h)
  | inr e ↦ rw e (elim (Bool-cases (text_ltb x y)) [
    | inl f ↦ rw f ((f, below-All x y ys f p), (p, h))
    | inr f ↦
        rw f (insert_new-All _ x ys (text_ltb_connex x y e f) p, insert_new-IsAscending x ys h)
  ])
]

-- The sorted set is strictly ascending.
pub sorted_set-IsAscending : (xs : List Text) → IsAscending (sorted_set xs)
unfolding sorted_set
sorted_set-IsAscending [] = tt
sorted_set-IsAscending (x ∷ xs) =
    insert_new-IsAscending x (sorted_set xs) (sorted_set-IsAscending xs)
