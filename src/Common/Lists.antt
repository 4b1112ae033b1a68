-- ===== src/Common/Lists.antt =====
-- Lists measured by native numbers, and predicates on lists by recursion.
use Prim.Native.Nat.{ℕ, zero, suc, ◌+◌, ◌≤◌}
use mathlib.Core.Path.{◌≡◌, refl, ap, sym, ◌∙◌, subst}
use mathlib.Core.Bool.{Bool, true, false, ◌&&◌, ◌||◌}
use mathlib.Core.List.{List, [], ◌∷◌, ◌++◌, Memᴰ, append_assoc}
use mathlib.Core.List.Memᴰ
use mathlib.Core.Logic.{◌↔◌, inl, inr}
use native.Mathlib.Omega.{arith}
use api_scanner.Common.Tests.{if◌then◌else◌, Bool-cases}

module _ {ℓ} {A : Type ℓ} where
  abbrev pub length : List A → ℕ
  length [] = 0
  length (x ∷ xs) = suc (length xs)

  pub length-append : (xs ys : List A) → length (xs ++ ys) ≡ length xs + length ys
  length-append [] ys = omega arith
  length-append (x ∷ xs) ys = omega (arith, length-append xs ys)

  abbrev pub drop : ℕ → List A → List A
  drop zero xs = xs
  drop (suc n) [] = []
  drop (suc n) (x ∷ xs) = drop n xs

  abbrev pub take : ℕ → List A → List A
  take zero xs = []
  take (suc n) [] = []
  take (suc n) (x ∷ xs) = x ∷ take n xs

  -- Python's any and all.
  abbrev pub any : (A → Bool) → List A → Bool
  any p [] = false
  any p (x ∷ xs) = p x || any p xs

  abbrev pub all : (A → Bool) → List A → Bool
  all p [] = true
  all p (x ∷ xs) = p x && all p xs

  -- A list comprehension with a test.
  abbrev pub select : (A → Bool) → List A → List A
  select p [] = []
  select p (x ∷ xs) = let rest = select p xs in if p x then x ∷ rest else rest

  -- How many items pass a test.
  abbrev pub tally : (A → Bool) → List A → ℕ
  tally p [] = 0
  tally p (x ∷ xs) = (if p x then 1 else 0) + tally p xs

  abbrev pub sum_by : (A → ℕ) → List A → ℕ
  sum_by f [] = 0
  sum_by f (x ∷ xs) = f x + sum_by f xs

  -- A list is empty, as Python's truth test reads it.
  abbrev pub is_empty : List A → Bool
  is_empty [] = true
  is_empty (x ∷ xs) = false

  pub length-select : (p : A → Bool) (xs : List A) → length (select p xs) ≡ tally p xs
  length-select p [] = refl
  length-select p (x ∷ xs) = ground (arith, length-select p xs)

  pub tally-append : (p : A → Bool) (xs ys : List A) → tally p (xs ++ ys) ≡ tally p xs + tally p ys
  tally-append p [] ys = omega arith
  tally-append p (x ∷ xs) ys = omega (arith, tally-append p xs ys)

  pub tally-le-length : (p : A → Bool) (xs : List A) → tally p xs ≤ length xs
  tally-le-length p [] = omega arith
  tally-le-length p (x ∷ xs) = ground (arith, tally-le-length p xs)

module _ {ℓ κ} {A : Type ℓ} (P : A → Type κ) where
  abbrev pub All : List A → Type κ
  All [] = Unit
  All (x ∷ xs) = P x × All xs

  pub All-append : (xs ys : List A) → All xs → All ys → All (xs ++ ys)
  All-append [] ys h k = k
  All-append (x ∷ xs) ys (p, h) k = (p, All-append xs ys h k)

  pub All-split : (xs ys : List A) → All (xs ++ ys) → All xs × All ys
  All-split [] ys h = (tt, h)
  All-split (x ∷ xs) ys (p, h) = let (first, rest) = All-split xs ys h in ((p, first), rest)

module _ {ℓ} {A : Type ℓ} (p : A → Bool) where
  pub any_sound : (xs : List A) → any p xs ≡ true → (x : A) × Memᴰ x xs × (p x ≡ true)
  any_sound [] h = cc
  any_sound (x ∷ xs) h = elim (Bool-cases (p x)) [
    | inl e ↦ (x, Memᴰ.head refl, e)
    | inr e ↦ let (y, m, q) = any_sound xs (rw e at h) in (y, Memᴰ.tail m, q)
  ]

  pub any_complete : (xs : List A) {x : A} → Memᴰ x xs → p x ≡ true → any p xs ≡ true
  any_complete [] m h = elim m [ ]
  any_complete (y ∷ xs) (Memᴰ.head e) h = rw (← e) (rw h refl)
  any_complete (y ∷ xs) (Memᴰ.tail m) h = ground (arith, any_complete xs m h)

  -- No item passes the test: every item fails it.
  pub any-eq-false_iff : (xs : List A) → (any p xs ≡ false) ↔ All (λ x. p x ≡ false) xs
  any-eq-false_iff [] = (λ h. tt, λ h. refl)
  any-eq-false_iff (x ∷ xs) =
      let (to, from) = any-eq-false_iff xs in
      (λ h. (ground arith, to (ground arith)), λ (e, k). rw e (from k))

  pub all_sound : (xs : List A) {x : A} → all p xs ≡ true → Memᴰ x xs → p x ≡ true
  all_sound [] h m = elim m [ ]
  all_sound (y ∷ xs) h (Memᴰ.head e) = rw e (ground arith)
  all_sound (y ∷ xs) h (Memᴰ.tail m) = all_sound xs (ground arith) m

module _ {ℓ κ} {A : Type ℓ} {B : Type κ} (f : A → List B) where
  -- [y for x in xs for y in f(x)]
  abbrev pub collect : List A → List B
  collect [] = []
  collect (x ∷ xs) = f x ++ collect xs

  pub collect-append : (xs ys : List A) → collect (xs ++ ys) ≡ collect xs ++ collect ys
  collect-append [] ys = refl
  collect-append (x ∷ xs) ys =
      ap (λ (zs : List B). f x ++ zs) (collect-append xs ys) ∙ sym (append_assoc (f x) _ _)

  -- What one item gives is among what all give.
  pub mem-collect : (xs : List A) {x : A} {y : B} → Memᴰ x xs → Memᴰ y (f x) → Memᴰ y (collect xs)
  mem-collect [] m n = elim m [ ]
  mem-collect (z ∷ xs) {y} (Memᴰ.head e) n =
      Memᴰ.append_left (collect xs) (subst (λ w. Memᴰ y (f w)) e n)
  mem-collect (z ∷ xs) (Memᴰ.tail m) n = Memᴰ.append_right (f z) (mem-collect xs m n)

  pub mem-collect_inv :
      (xs : List A) {y : B} → Memᴰ y (collect xs) → (x : A) × Memᴰ x xs × Memᴰ y (f x)
  mem-collect_inv [] m = elim m [ ]
  mem-collect_inv (x ∷ xs) m = elim (Memᴰ.append_cases (f x) m) [
    | inl h ↦ (x, Memᴰ.head refl, h)
    | inr h ↦ let (z, p, q) = mem-collect_inv xs h in (z, Memᴰ.tail p, q)
  ]

-- What holds of all holds of each.
pub All-at {ℓ κ} : {A : Type ℓ} (P : A → Type κ) (xs : List A) {x : A} → All P xs → Memᴰ x xs → P x
All-at P [] h m = elim m [ ]
All-at P (y ∷ xs) (p, h) (Memᴰ.head e) = subst P (sym e) p
All-at P (y ∷ xs) (p, h) (Memᴰ.tail m) = All-at P xs h m

pub All-intro {ℓ κ} :
    {A : Type ℓ} (P : A → Type κ) (xs : List A) → ((x : A) → Memᴰ x xs → P x) → All P xs
All-intro P [] h = tt
All-intro P (x ∷ xs) h = (h x (Memᴰ.head refl), All-intro P xs (λ y m. h y (Memᴰ.tail m)))

module _ {ℓ} {A : Type ℓ} (p : A → Bool) where
  -- What passes the test is selected.
  pub mem-select : (xs : List A) {x : A} → Memᴰ x xs → p x ≡ true → Memᴰ x (select p xs)
  mem-select [] m h = elim m [ ]
  mem-select (y ∷ xs) {x} (Memᴰ.head e) h = rw (subst (λ w. p w ≡ true) e h) (Memᴰ.head e)
  mem-select (y ∷ xs) (Memᴰ.tail m) h = elim (Bool-cases (p y)) [
    | inl e ↦ rw e (Memᴰ.tail (mem-select xs m h))
    | inr e ↦ rw e (mem-select xs m h)
  ]

  -- What is selected was there and passes the test.
  pub mem-select_inv : (xs : List A) {x : A} → Memᴰ x (select p xs) → Memᴰ x xs × (p x ≡ true)
  mem-select_inv [] m = elim m [ ]
  mem-select_inv (y ∷ xs) {x} m = elim (Bool-cases (p y)) [
    | inl e ↦ elim (Memᴰ.cases_cons (rw e at m)) [
      | inl h ↦ (Memᴰ.head h, subst (λ w. p w ≡ true) (sym h) e)
      | inr h ↦ let (k, q) = mem-select_inv xs h in (Memᴰ.tail k, q)
    ]
    | inr e ↦ let (k, q) = mem-select_inv xs (rw e at m) in (Memᴰ.tail k, q)
  ]

pub All-weaken {ℓ κ μ} :
    {A : Type ℓ} (P : A → Type κ) (Q : A → Type μ) (xs : List A)
    → ((x : A) → P x → Q x)
    → All P xs
    → All Q xs
All-weaken P Q [] f h = tt
All-weaken P Q (x ∷ xs) f (p, h) = (f x p, All-weaken P Q xs f h)
