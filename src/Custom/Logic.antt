-- ===== src/Custom/Logic.antt =====
-- A logic of the runs of the engine: what a run returns, and what it keeps of the session. It is
-- about `Exec` of Custom/Session.antt.
use api_scanner.Common.{
  Option, none, some, Bool, true, false, if◌then◌else◌, List, [], ◌∷◌, ◌≡◌, refl, inl, inr,
}
use api_scanner.Custom.{Failure, Fallible}
use api_scanner.Custom.Session.{
  Session, Result, failed, ok, Exec, continue, ◌>>=◌, pure, raising, recover, attempt, tried,
  for_each,
}

-- `F` is what an exception needs: Unit if there may be one, an empty type if there is none.
abbrev pub OnResult : {A : Type 0} → Type 0 → (A → Type 0) → Result A → Type 0
OnResult F Q (failed f) = F
OnResult F Q (ok a) = Q a

-- The results of a loop, each with what it came from.
abbrev pub Each : {A B : Type 0} → (A → B → Type 0) → List A → List B → Type 0
Each Q [] [] = Unit
Each Q (a ∷ as') (b ∷ bs) = Q a b × Each Q as' bs
Each Q [] (b ∷ bs) = ⊥
Each Q (a ∷ as') [] = ⊥

module _ (P : Session → Type 0) where
  pub record Runs {A : Type 0} (F : Type 0) (Q : A → Type 0) (m : Exec A) : Type 0 where
    pub run : (s : Session) → P s → OnResult F Q (m s).0 × P (m s).1

  pub Runs-pure : {A F : Type 0} {Q : A → Type 0} (a : A) → Q a → Runs F Q (pure a)
  Runs-pure a q = record { run = λ s p. (q, p) }

  pub Runs-if :
      {A F : Type 0} {Q : A → Type 0} {m n : Exec A} (b : Bool)
      → Runs F Q m
      → Runs F Q n
      → Runs F Q (if b then m else n)
  Runs-if true h k = h
  Runs-if false h k = k

  pub Runs-option :
      {A B F : Type 0} {Q : A → Type 0} {m : Exec A} {f : B → Exec A} (o : Option B)
      → Runs F Q m
      → ((b : B) → Runs F Q (f b))
      → Runs F Q (elim o [ none ↦ m | some b ↦ f b ])
  Runs-option none h k = h
  Runs-option (some b) h k = k b

  module _ {A B F : Type 0} {Q : A → Type 0} {R : B → Type 0} where
    continue-run :
        (r : Result A) (f : A → Exec B) (s : Session)
        → OnResult F Q r
        → P s
        → ((a : A) → Q a → Runs F R (f a))
        → OnResult F R (continue r f s).0 × P (continue r f s).1
    continue-run (failed e) f s q p k = (q, p)
    continue-run (ok a) f s q p k = (k a q).run s p

    pub Runs-bind :
        {m : Exec A} {f : A → Exec B}
        → Runs F Q m
        → ((a : A) → Q a → Runs F R (f a))
        → Runs F R (m >>= f)
    Runs-bind {m} {f} h k = record {
      run = λ s p. continue-run (m s).0 f (m s).1 (h.run s p).0 (h.run s p).1 k;
    }

  weaken-OnResult :
      {A F G : Type 0} {Q R : A → Type 0} (r : Result A)
      → (F → G)
      → ((a : A) → Q a → R a)
      → OnResult F Q r
      → OnResult G R r
  weaken-OnResult (failed e) h k o = h o
  weaken-OnResult (ok a) h k o = k a o

  pub Runs-weaken :
      {A F G : Type 0} {Q R : A → Type 0} {m : Exec A}
      → (F → G)
      → ((a : A) → Q a → R a)
      → Runs F Q m
      → Runs G R m
  Runs-weaken {m} h k r = record {
    run = λ s p. (weaken-OnResult (m s).0 h k (r.run s p).0, (r.run s p).1);
  }

  pub Runs-raising :
      {A B F : Type 0} {R : B → Type 0} (x : Fallible A) {f : A → Exec B}
      → ((e : Failure) → x ≡ inl e → F)
      → ((a : A) → x ≡ inr a → Runs F R (f a))
      → Runs F R (raising x >>= f)
  Runs-raising (inl e) h k = record { run = λ s p. (h e refl, p) }
  Runs-raising (inr a) h k = k a refl

  module _ {A F : Type 0} {Q : A → Type 0} where
    recover-run :
        (f : Failure → Exec A) (r : Result A) (s : Session)
        → OnResult Unit Q r
        → P s
        → ((e : Failure) → Runs F Q (f e))
        → OnResult F Q (recover f r s).0 × P (recover f r s).1
    recover-run f (failed e) s q p k = (k e).run s p
    recover-run f (ok a) s q p k = (q, p)

    pub Runs-attempt :
        {m : Exec A} {f : Failure → Exec A}
        → Runs Unit Q m
        → ((e : Failure) → Runs F Q (f e))
        → Runs F Q (attempt m f)
    Runs-attempt {m} {f} h k = record {
      run = λ s p. recover-run f (m s).0 (m s).1 (h.run s p).0 (h.run s p).1 k;
    }

    pub Runs-tried : {G : Type 0} {m : Exec A} → Runs F Q m → Runs G (λ r. OnResult F Q r) (tried m)
    Runs-tried h = record { run = h.run }

  pub Runs-for_each :
      {A B F : Type 0} {Q : A → B → Type 0} {f : A → Exec B} (xs : List A)
      → ((a : A) → Runs F (Q a) (f a))
      → Runs F (Each Q xs) (for_each f xs)
  Runs-for_each [] h = Runs-pure [] tt
  Runs-for_each {Q} {f} (x ∷ xs) h = Runs-bind (h x) (λ b q.
      Runs-bind (Runs-for_each xs h) (λ bs e. Runs-pure {Q = Each Q (x ∷ xs)} (b ∷ bs) (q, e)))
