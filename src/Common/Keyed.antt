-- ===== src/Common/Keyed.antt =====
-- Lists of items under keys, and what sorting and permuting keep of them.
use mathlib.Core.Path.{◌≡◌, refl, ap, sym, ◌∙◌, subst, subst₂}
use mathlib.Core.Logic.{∥∥₁_map, inl, inr}
use mathlib.Core.Bool.{Bool, true, false, ◌||◌}
use mathlib.Core.List.{List, [], ◌∷◌, ◌++◌, map, Memᴰ, Perm, Permᴰ, append_assoc}
use mathlib.Core.List.Memᴰ
use mathlib.Core.List.Permᴰ
use native.Mathlib.Omega.{arith}
use api_scanner.Common.Tests.{Bool-cases}
use api_scanner.Common.Lists.{collect}
use api_scanner.Common.Text.{Text, text_eq, text_eq_iff, text_eq_refl}
use api_scanner.Common.Sorting.{insert_by, sort_by, is_in}

-- No text stands there twice.
abbrev pub IsUnique : List Text → Type 0
IsUnique [] = Unit
IsUnique (x ∷ xs) = (is_in x xs ≡ false) × IsUnique xs

pub mem-is_in : (x : Text) (xs : List Text) → Memᴰ x xs → is_in x xs ≡ true
mem-is_in x [] m = elim m [ ]
mem-is_in x (y ∷ xs) (Memᴰ.head e) = rw e (rw text_eq_refl refl)
mem-is_in x (y ∷ xs) (Memᴰ.tail m) = ground (arith, mem-is_in x xs m)

pub is_in-mem : (x : Text) (xs : List Text) → is_in x xs ≡ true → Memᴰ x xs
is_in-mem x [] h = cc
is_in-mem x (y ∷ xs) h = elim (Bool-cases (text_eq x y)) [
  | inl e ↦ Memᴰ.head ((text_eq_iff x y).0 e)
  | inr e ↦ Memᴰ.tail (is_in-mem x xs (rw e at h))
]

module _ {ℓ} {A : Type ℓ} (precedes : A → A → Bool) where
  insert_by-mem : (x : A) (ys : List A) → Memᴰ x (insert_by precedes x ys)
  unfolding insert_by
  insert_by-mem x [] = Memᴰ.head refl
  insert_by-mem x (y ∷ ys) = elim (Bool-cases (precedes x y)) [
    | inl e ↦ rw e (Memᴰ.head refl)
    | inr e ↦ rw e (Memᴰ.tail (insert_by-mem x ys))
  ]

  insert_by-mem_old : (x : A) (ys : List A) {z : A} → Memᴰ z ys → Memᴰ z (insert_by precedes x ys)
  unfolding insert_by
  insert_by-mem_old x [] m = elim m [ ]
  insert_by-mem_old x (y ∷ ys) {z} m = elim (Bool-cases (precedes x y)) [
    | inl e ↦ rw e (Memᴰ.tail m)
    | inr e ↦ rw e (elim (Memᴰ.cases_cons m) [
      | inl h ↦ Memᴰ.head h
      | inr h ↦ Memᴰ.tail (insert_by-mem_old x ys h)
    ])
  ]

  -- What stands in a list stands in it when it is sorted.
  pub sort_by-mem : (xs : List A) {z : A} → Memᴰ z xs → Memᴰ z (sort_by precedes xs)
  unfolding sort_by
  sort_by-mem [] m = elim m [ ]
  sort_by-mem (x ∷ xs) (Memᴰ.head e) =
      subst (λ w. Memᴰ w (insert_by precedes x (sort_by precedes xs))) (sym e)
        (insert_by-mem x (sort_by precedes xs))
  sort_by-mem (x ∷ xs) (Memᴰ.tail m) = insert_by-mem_old x (sort_by precedes xs) (sort_by-mem xs m)

  module _ (key : A → Text) where
    is_in-insert_by :
        (k : Text) (x : A) (ys : List A)
        → is_in k (map key (insert_by precedes x ys)) ≡ (text_eq k (key x) || is_in k (map key ys))
    unfolding insert_by
    is_in-insert_by k x [] = refl
    is_in-insert_by k x (y ∷ ys) = elim (Bool-cases (precedes x y)) [
      | inl e ↦ rw e refl
      | inr e ↦ rw e (ground (arith, is_in-insert_by k x ys))
    ]

    text_eq_sym : (a b : Text) → text_eq a b ≡ text_eq b a
    text_eq_sym a b = ground (arith, text_eq_iff a b, text_eq_iff b a)

    insert_by-IsUnique :
        (x : A) (ys : List A)
        → is_in (key x) (map key ys) ≡ false
        → IsUnique (map key ys)
        → IsUnique (map key (insert_by precedes x ys))
    unfolding insert_by
    insert_by-IsUnique x [] h u = (refl, tt)
    insert_by-IsUnique x (y ∷ ys) h (v, u) = elim (Bool-cases (precedes x y)) [
      | inl e ↦ rw e (h, (v, u))
      | inr e ↦ rw e (
        rw (is_in-insert_by (key y) x ys) (ground (arith, text_eq_sym (key x) (key y))),
        insert_by-IsUnique x ys (ground arith) u,
      )
    ]

    is_in-sort_by :
        (k : Text) (xs : List A) → is_in k (map key (sort_by precedes xs)) ≡ is_in k (map key xs)
    unfolding sort_by
    is_in-sort_by k [] = refl
    is_in-sort_by k (x ∷ xs) =
        is_in-insert_by k x (sort_by precedes xs)
        ∙ ap (λ b. text_eq k (key x) || b) (is_in-sort_by k xs)

    -- Sorting keeps the keys apart.
    pub sort_by-IsUnique :
        (xs : List A) → IsUnique (map key xs) → IsUnique (map key (sort_by precedes xs))
    unfolding sort_by
    sort_by-IsUnique [] u = tt
    sort_by-IsUnique (x ∷ xs) (v, u) =
        insert_by-IsUnique x (sort_by precedes xs) (is_in-sort_by (key x) xs ∙ v)
          (sort_by-IsUnique xs u)

module _ {ℓ κ} {A : Type ℓ} {B : Type κ} (f : A → List B) where
  exchange : (xs ys zs : List B) → Permᴰ (xs ++ (ys ++ zs)) (ys ++ (xs ++ zs))
  exchange xs ys zs =
      subst₂ Permᴰ (append_assoc xs ys zs) (append_assoc ys xs zs)
        (Permᴰ.append_right zs (Permᴰ.append_comm xs ys))

  collect-permᴰ : {xs ys : List A} → Permᴰ xs ys → Permᴰ (collect f xs) (collect f ys)
  collect-permᴰ Permᴰ.nil = Permᴰ.nil
  collect-permᴰ (Permᴰ.cons {a} {b} {l₁} {l₂} e p) =
      subst (λ z. Permᴰ (f a ++ collect f l₁) (f z ++ collect f l₂)) e
        (Permᴰ.append_left (f a) (collect-permᴰ p))
  collect-permᴰ (Permᴰ.swap {a} {b} {a'} {b'} {l} e d) =
      subst₂ (λ y z. Permᴰ (f a ++ (f b ++ collect f l)) (f y ++ (f z ++ collect f l))) d e
        (exchange (f a) (f b) (collect f l))
  collect-permᴰ (Permᴰ.trans p q) = Permᴰ.trans (collect-permᴰ p) (collect-permᴰ q)

  -- Collecting from a permuted list gives a permuted list.
  pub collect-perm : {xs ys : List A} → Perm xs ys → Perm (collect f xs) (collect f ys)
  collect-perm p = ∥∥₁_map p collect-permᴰ
